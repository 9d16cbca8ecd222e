-- ===== src/Battle/Server/Token.antt =====
-- src/service/battle/battleapp: battle tokens, made and checked.
use heli.Common.Decimal.{show_int}
use heli.Common.{ℤ, String, List, [], ◌∷◌, map, int_eq, string_eq}
use Prim.Native.String.{◌++◌ as ◌+++◌}

-- `strings.Join(parts, ",")`
unfoldable pub join_comma : List String → String
join_comma [] = ""
join_comma (s ∷ []) = s
join_comma (s ∷ t ∷ rest) = s +++ ("," +++ join_comma (t ∷ rest))

abbrev pub token_prefix : String → String
token_prefix room_id = "battle:" +++ (room_id +++ ":")

unfoldable pub build_battle_token : String → List ℤ → String
unfolding show_int join_comma
build_battle_token room_id player_ids =
    token_prefix room_id +++ join_comma (map show_int player_ids)
