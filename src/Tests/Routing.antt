-- ===== src/Tests/Routing.antt =====
-- Runs of the rule sets and presets.
use v2ray_rs.Models.Validation.{validate_rule_match, geo_site}
use v2ray_rs.Models.Routing.{block, move_rule}
use v2ray_rs.Models.Routing.Order.{move_rule_lem}
use v2ray_rs.Models.Routing.Validity.{
  Operation, insert_last, delete, reorder, IsValid, perform_all, perform_all-IsValid,
}
use v2ray_rs.Models.Presets.{apply_preset, popular_ai}
use v2ray_rs.Models.Presets.Builtin.{popular_ai-not-IsValid}
use v2ray_rs.Tests.Samples.{ascii, networks, rule, two_rules}
use v2ray_rs.Base.{
  ◌+◌, ◌≤◌, ◌<◌, String, ◌≡◌, refl, ◌⊎◌, List, [], ◌∷◌, eq_refl, length, get_elem?, erase_at,
}

move_rule_lem_example :
    ((0 < length two_rules)
      × (1 < length two_rules)
      × (get_elem? (move_rule 0 1 two_rules) 1 ≡ get_elem? two_rules 0)
      × (erase_at (move_rule 0 1 two_rules) 1 ≡ erase_at two_rules 0))
    ⊎ (((length two_rules ≤ 0) ⊎ (length two_rules ≤ 1)) × (move_rule 0 1 two_rules ≡ two_rules))
move_rule_lem_example = move_rule_lem 0 1 two_rules

two_rules-IsValid : IsValid ascii networks two_rules
unfolding validate_rule_match
two_rules-IsValid = (refl, (refl, tt))

abbrev some_operations : List (Operation String)
some_operations = reorder 0 1 ∷ insert_last (rule 3 (geo_site "nosuch") block) ∷ delete 2 ∷ []

perform_all-IsValid_example :
    IsValid ascii networks (perform_all ascii networks some_operations two_rules)
perform_all-IsValid_example =
    perform_all-IsValid ascii networks some_operations two_rules two_rules-IsValid

popular_ai-not-IsValid_example :
    ¬ IsValid ascii networks (apply_preset networks (λ n. n + 10) popular_ai two_rules)
popular_ai-not-IsValid_example =
    popular_ai-not-IsValid ascii networks eq_refl (λ n. n + 10) two_rules
