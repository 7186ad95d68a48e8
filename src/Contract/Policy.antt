-- ===== src/Contract/Policy.antt =====
-- `RoutingPolicy` of src/contract.rs.
use brigh_to_router.Prelude.{◌||◌, if◌then◌else◌}
use brigh_to_router.Prelude.Eq.{list_beq}
use brigh_to_router.Prelude.Text.{Text, codes, trim, to_ascii_lowercase}

pub data RoutingPolicy : Type 0 where
  least_loaded_weighted round_robin weighted_round_robin : RoutingPolicy

unfoldable pub policy_of_name : Text → RoutingPolicy
policy_of_name s =
    if list_beq s (codes "round_robin") || list_beq s (codes "rr")
    then round_robin
    else if list_beq s (codes "weighted_round_robin")
        || list_beq s (codes "weighted")
        || list_beq s (codes "wrr")
    then weighted_round_robin
    else least_loaded_weighted

unfoldable pub parse : Text → RoutingPolicy
parse s = policy_of_name (to_ascii_lowercase (trim s))

unfoldable pub as_str : RoutingPolicy → Text
as_str least_loaded_weighted = codes "least_loaded_weighted"
as_str round_robin = codes "round_robin"
as_str weighted_round_robin = codes "weighted_round_robin"
