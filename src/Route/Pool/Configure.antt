-- ===== src/Route/Pool/Configure.antt =====
-- A new configuration leaves the load and the circuit of a backend alone.
use brigh_to_router.Prelude.{List, [], ◌∷◌, ◌∙◌, true, false, if_intro, subst}
use brigh_to_router.Prelude.{
  ℕ, ◌≡◌, refl, Option, none, some, ◌==◌, ==_iff, if◌then◌else◌, arith, Option-cases, Bool-cases,
  inl, inr,
}
use brigh_to_router.Prelude.Eq.{ℕ_eq}
use brigh_to_router.Prelude.Maps.{Map, lookup, lookup-insert, lookup-remove, remove, insert}
use brigh_to_router.Contract.Config.{Backend}
use brigh_to_router.Route.Pool.{
  RamBackendPool, BackendState, reconfigure, upsert_backend, new_state, retire, is_missing,
  retire_all, upsert_all, sync_backends,
}

abbrev after_upsert : Backend → Option BackendState → BackendState
after_upsert b none = new_state b
after_upsert b (some s) = reconfigure b s

pub lookup-upsert_backend :
    (p : RamBackendPool) (b : Backend) (j : ℕ)
    → lookup j (upsert_backend p b).states
      ≡ (if b.id == j then some (after_upsert b (lookup b.id p.states)) else lookup j p.states)
unfolding upsert_backend
lookup-upsert_backend p b j = elim (Option-cases (lookup b.id p.states)) [
  | inl e ↦ ground (arith, e, lookup-insert b.id j (new_state b) p.states)
  | inr (s, e) ↦ ground (arith, e, lookup-insert b.id j (reconfigure b s) p.states)
]

pub upsert_keeps :
    (p : RamBackendPool) (b : Backend) (j : ℕ) (s : BackendState)
    → lookup j p.states ≡ some s
    → (t : BackendState) × (lookup j (upsert_backend p b).states ≡ some t)
      × (t.circuit ≡ s.circuit)
      × (t.half_open_probe ≡ s.half_open_probe)
      × (t.inflight ≡ s.inflight)
unfolding reconfigure
upsert_keeps p b j s e = elim (Bool-cases (b.id == j)) [
  | inl same ↦
      let at_id : lookup b.id p.states ≡ some s = rw ((==_iff b.id j).0 same) e in
      (reconfigure b s, ground (arith, same, at_id, lookup-upsert_backend p b j), refl, refl, refl)
  | inr other ↦ (s, ground (arith, other, lookup-upsert_backend p b j), refl, refl, refl)
]

retire-keeps :
    (id j : ℕ) (o : Option BackendState) (m : Map ℕ BackendState)
    → (id == j) ≡ false
    → lookup j (retire id o m) ≡ lookup j m
unfolding retire
retire-keeps id j none m e = ground (arith, e, lookup-remove id j m)
retire-keeps id j (some s) m e =
    if_intro (λ t. lookup j t ≡ lookup j m) (s.inflight == 0) (remove id m)
      (insert id (record s { enabled = false }) m) (λ f. ground (arith, e, lookup-remove id j m))
      (λ f. ground (arith, e, lookup-insert id j (record s { enabled = false }) m))

retire_all-keeps :
    (current : List (ℕ × BackendState)) (snapshot : Map ℕ Backend) (m : Map ℕ BackendState) (j : ℕ)
    → is_missing (lookup j snapshot) ≡ false
    → lookup j (retire_all current snapshot m) ≡ lookup j m
unfolding retire_all
retire_all-keeps [] snapshot m j e = refl
retire_all-keeps ((id, s) ∷ current) snapshot m j e =
    retire_all-keeps current snapshot _ j e
    ∙ if_intro (λ t. lookup j t ≡ lookup j m) (is_missing (lookup id snapshot))
        (retire id (lookup id m) m) m
        (λ f. retire-keeps id j (lookup id m) m (elim (Bool-cases (id == j)) [
          | inl same ↦
              let here : is_missing (lookup j snapshot) ≡ true =
                subst (λ k. is_missing (lookup k snapshot) ≡ true) ((==_iff id j).0 same) f in
              absurd (ground (arith, here, e))
          | inr other ↦ other
        ]))
        (λ f. refl)

upsert_all-keeps :
    (rest : List (ℕ × Backend)) (p : RamBackendPool) (j : ℕ) (s : BackendState)
    → lookup j p.states ≡ some s
    → (t : BackendState) × (lookup j (upsert_all rest p).states ≡ some t)
      × (t.circuit ≡ s.circuit)
      × (t.half_open_probe ≡ s.half_open_probe)
unfolding upsert_all
upsert_all-keeps [] p j s e = (s, e, refl, refl)
upsert_all-keeps ((id, b) ∷ rest) p j s e =
    let (t, found, c, q, i) = upsert_keeps p b j s e in
    let (u, later, c', q') = upsert_all-keeps rest (upsert_backend p b) j t found in
    (u, later, c' ∙ c, q' ∙ q)

-- A configuration that lists a backend leaves its circuit and its probe alone.
pub sync_keeps :
    (p : RamBackendPool) (snapshot : Map ℕ Backend) (j : ℕ) (s : BackendState)
    → is_missing (lookup j snapshot) ≡ false
    → lookup j p.states ≡ some s
    → (t : BackendState) × (lookup j (sync_backends p snapshot).states ≡ some t)
      × (t.circuit ≡ s.circuit)
      × (t.half_open_probe ≡ s.half_open_probe)
unfolding sync_backends
sync_keeps p snapshot j s listed e =
    upsert_all-keeps snapshot (record p { states = retire_all p.states snapshot p.states }) j s
      (retire_all-keeps p.states snapshot p.states j listed ∙ e)
