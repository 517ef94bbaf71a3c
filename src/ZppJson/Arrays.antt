-- ===== src/ZppJson/Arrays.antt =====
-- Arrays: what is pushed is found at the end.
use zpp_adapter.Prelude.{if◌then◌else◌, List, []}
use zpp_adapter.Json.{Keys, Rapid, is_array}
use zpp_adapter.ZppJson.{Ordered, ZppJson}

module _ {k : Keys} (r : Rapid k) (m : Ordered r) where
  -- The elements that count: none where the value is null.
  abbrev pub elements_of : r.Value → List r.Value
  elements_of v = if is_array (r.kind v) then r.elements v else []
