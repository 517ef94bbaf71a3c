-- ===== src/Json/Tests.antt =====
-- RJson at concrete inputs.
use zpp_adapter.Prelude.{
  ℕ, ◌+◌, ◌==◌, ◌≡◌, ◌≢◌, refl, true, if◌then◌else◌, none, some, [], ◌∷◌, arith,
}
use zpp_adapter.Zsi.{ok, fail}
use zpp_adapter.Json.{
  set_int, get_int, set_uint, get_uint, set_int64, get_int64, set_uint64, get_uint64, set_string,
  get_string, set_double, get_double, set_bool, get_bool,
}
use zpp_adapter.Json.Access.{Agrees, getters_agree}
use zpp_adapter.Json.Each.{Callback, for_each, each_array, each_object}
use zpp_adapter.Json.Each.Walk.{for_each_balanced}
use zpp_adapter.Json.Each.Ends.{enough, for_each_ends}
use zpp_adapter.Json.Small.{Val, scalar, obj_end, obj_more, arr_end, arr_more, small, same_lem}

-- Key 1 holds the int 5, and key 2 an array.
abbrev object : Val
object = obj_more 1 (scalar 0 5) (obj_more 2 (arr_more (scalar 0 6) arr_end) obj_end)

getters_agree_example :
    Agrees small small.int (set_int small) (get_int small) 1 7 2 object
    × Agrees small small.uint (set_uint small) (get_uint small) 1 7 2 object
    × Agrees small small.int64 (set_int64 small) (get_int64 small) 1 7 2 object
    × Agrees small small.uint64 (set_uint64 small) (get_uint64 small) 1 7 2 object
    × Agrees small small.string (set_string small) (get_string small) 1 7 2 object
    × Agrees small small.double (set_double small) (get_double small) 1 7 2 object
    × Agrees small small.bool (set_bool small) (get_bool small) 1 7 2 object
getters_agree_example = getters_agree same_lem small 1 2 object 7 7 7 7 7 7 7 refl

-- A callback that counts, and stops the walk at the second report; the end of the object is still
-- reported.
abbrev count : Callback small ℕ
count t name v n = (if n == 1 then fail else ok, n + 1)

for_each_balanced_example : some (true ∷ []) ≡ some (true ∷ [])
unfolding for_each each_array each_object
for_each_balanced_example =
    for_each_balanced small ℕ object count 0 (true ∷ []) 9 fail 3 (some (true ∷ [])) refl

for_each_ends_example : for_each small ℕ (enough small ℕ object) count object 0 ≢ none
for_each_ends_example = for_each_ends small ℕ object (enough small ℕ object) count 0 (omega arith)
