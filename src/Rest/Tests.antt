-- ===== src/Rest/Tests.antt =====
-- Paths and the server at concrete inputs.
use zpp_adapter.Prelude.{◌≡◌, refl, ◌⊎◌, true, false, [], ◌∷◌, ◌++◌}
use zpp_adapter.Prelude.{Str}
use zpp_adapter.Rest.{Server, api}
use zpp_adapter.Rest.Serve.{
  Query, put, error, reply, test_path, rest_gencb, on_api_general, texts, subject,
}
use zpp_adapter.Rest.Serve.{post, Incoming, parse_req, arrived}
use zpp_adapter.Std.Map.{find}
use zpp_adapter.Std.Text.{text_eq, text_order}
use zpp_adapter.Zsi.{ok, fail}
use zpp_adapter.Prelude.{some, codes, arith}
use zpp_adapter.Rest.Serve.Parsed.{last_value, parse_req_lem}
use zpp_adapter.Rest.Client.{Names, Request}
use zpp_adapter.Rest.Serve.Once.{IsAt, gencb_once}

abbrev longer : Str
longer = api ++ (115 ∷ [])

abbrev server : Server
server = record { port = 0; is_run = false }

abbrev update : Query
update = record {
  has_req = true;
  cmd = put;
  uri = test_path ++ (115 ∷ []);
  query = [];
  request = [];
}

gencb_once_example :
    (IsAt test_path update.uri
      × (rest_gencb on_api_general update ≡ reply 200 (texts put ++ subject update) ∷ []))
    ⊎ ((¬ IsAt test_path update.uri) × (rest_gencb on_api_general update ≡ error 501 ∷ []))
gencb_once_example = gencb_once update refl

same_trans : (a b c : Str) → text_eq a b ≡ true → text_eq a c ≡ text_eq b c
same_trans a b c e = rw ((text_order.eq_iff a b).0 e) refl

same_sym : (a b : Str) → text_eq a b ≡ text_eq b a
same_sym [] [] = refl
same_sym [] (c ∷ b) = refl
same_sym (d ∷ a) [] = refl
same_sym (d ∷ a) (c ∷ b) = ground (arith, same_sym a b)

same_refl : (a : Str) → text_eq a a ≡ true
same_refl a = (text_order.eq_iff a a).1 refl

-- Names that are the same only if they are spelled the same.
abbrev exact : Names
exact = record { same = text_eq; refl = same_refl; sym = same_sym; trans = same_trans }

-- A query `a=1&a=2`, and a body.
abbrev posted : Incoming
posted = record {
  cmd = post;
  uri = test_path;
  pairs = some ((codes "a", codes "1") ∷ ((codes "a", codes "2") ∷ []));
  body = codes "{}";
  can_copy = true;
}

parse_req_lem_example :
    let (ret, q') = parse_req text_order posted (arrived posted) in
    (q'.cmd ≡ post)
    × (q'.uri ≡ test_path)
    × (q'.has_req ≡ true)
    × (find text_order (codes "a") q'.query
        ≡ last_value text_order
            (codes "a")
            ((codes "a", codes "1") ∷ ((codes "a", codes "2") ∷ []))
            (find text_order (codes "a") []))
    × (ret ≡ ok)
    × ((ret ≡ fail) ⊎ (q'.request ≡ codes "{}"))
parse_req_lem_example = parse_req_lem text_order posted (arrived posted) (codes "a")

-- A request of the client that has a text and a header of its own.
abbrev mine : Request
mine = record {
  req = some (record { headers = (codes "Host", codes "me") ∷ []; out = [] });
  cmd = post;
  uri = test_path;
  request = codes "{}";
  errcode = 0;
  reason = [];
  response = [];
}
