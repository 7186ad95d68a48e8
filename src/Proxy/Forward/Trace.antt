-- ===== src/Proxy/Forward/Trace.antt =====
-- What the calls of `proxy_forward` show of its leases and of what it sends.
use brigh_to_router.Prelude.{
  ℕ, ◌≡◌, refl, ap, false, ◌||◌, List, [], ◌∷◌, ◌++◌, ◌==◌, ==_iff, arith,
}
use brigh_to_router.Route.Exclusions.{mem}
use brigh_to_router.Proxy.Headers.{HeaderMap}
use brigh_to_router.Proxy.Forward.{Call, leased, dropped, noted, sent}

-- No id twice.
unfoldable pub Distinct : List ℕ → Type 0
Distinct [] = Unit
Distinct (x ∷ xs) = (mem xs x ≡ false) × Distinct xs

pub mem-snoc : (xs : List ℕ) (a b : ℕ) → mem (xs ++ a ∷ []) b ≡ (mem xs b || (a == b))
unfolding mem
mem-snoc [] a b = ground arith
mem-snoc (x ∷ xs) a b = ground (arith, mem-snoc xs a b)

pub Distinct-snoc : (xs : List ℕ) (a : ℕ) → Distinct xs → mem xs a ≡ false → Distinct (xs ++ a ∷ [])
unfolding Distinct mem
Distinct-snoc [] a d h = (refl, tt)
Distinct-snoc (x ∷ xs) a d h = (
  ground (arith, mem-snoc xs a x, d.0, ==_iff a x, ==_iff x a),
  Distinct-snoc xs a d.1 (ground arith),
)

module _ {H : HeaderMap} where
  -- The backends that were leased, dropped and sent to, in order.
  unfoldable pub leases : List (Call H) → List ℕ
  leases [] = []
  leases (leased b ∷ cs) = b ∷ leases cs
  leases (dropped b ∷ cs) = leases cs
  leases (noted b good ∷ cs) = leases cs
  leases (sent r ∷ cs) = leases cs

  unfoldable pub drops : List (Call H) → List ℕ
  drops [] = []
  drops (leased b ∷ cs) = drops cs
  drops (dropped b ∷ cs) = b ∷ drops cs
  drops (noted b good ∷ cs) = drops cs
  drops (sent r ∷ cs) = drops cs

  unfoldable pub sends : List (Call H) → List ℕ
  sends [] = []
  sends (leased b ∷ cs) = sends cs
  sends (dropped b ∷ cs) = sends cs
  sends (noted b good ∷ cs) = sends cs
  sends (sent r ∷ cs) = r.backend_id ∷ sends cs

  pub leases-append : (cs ds : List (Call H)) → leases (cs ++ ds) ≡ leases cs ++ leases ds
  unfolding leases
  leases-append [] ds = refl
  leases-append (leased b ∷ cs) ds = ap (λ l. b ∷ l) (leases-append cs ds)
  leases-append (dropped b ∷ cs) ds = leases-append cs ds
  leases-append (noted b good ∷ cs) ds = leases-append cs ds
  leases-append (sent r ∷ cs) ds = leases-append cs ds

  pub drops-append : (cs ds : List (Call H)) → drops (cs ++ ds) ≡ drops cs ++ drops ds
  unfolding drops
  drops-append [] ds = refl
  drops-append (leased b ∷ cs) ds = drops-append cs ds
  drops-append (dropped b ∷ cs) ds = ap (λ l. b ∷ l) (drops-append cs ds)
  drops-append (noted b good ∷ cs) ds = drops-append cs ds
  drops-append (sent r ∷ cs) ds = drops-append cs ds

  pub sends-append : (cs ds : List (Call H)) → sends (cs ++ ds) ≡ sends cs ++ sends ds
  unfolding sends
  sends-append [] ds = refl
  sends-append (leased b ∷ cs) ds = sends-append cs ds
  sends-append (dropped b ∷ cs) ds = sends-append cs ds
  sends-append (noted b good ∷ cs) ds = sends-append cs ds
  sends-append (sent r ∷ cs) ds = ap (λ l. r.backend_id ∷ l) (sends-append cs ds)
