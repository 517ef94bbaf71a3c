-- ===== src/Rest/Serve/Once.antt =====
-- Each request has one answer.
use zpp_adapter.Prelude.{
  zero, suc, ◌≡◌, ◌≢◌, ◌==◌, refl, sym, ◌∙◌, ◌⊎◌, inl, inr, Bool-cases, true, some, [], ◌∷◌, ◌++◌,
  append-nil, Str, length, get_elem?, ℤ, pos, negsuc, arith,
}
use zpp_adapter.Rest.{is_resource}
use zpp_adapter.Rest.Path.{is_resource_lem}
use zpp_adapter.Rest.Serve.{
  Query, reply, error, send_ok, send_error, on_api_test, on_api_general, test_path, rest_gencb,
  texts, subject,
}

-- The uri is the path or goes on behind it without `/`.
unfoldable pub IsAt : Str → Str → Type 0
IsAt path uri = (rest : Str) × (uri ≡ path ++ rest) × (get_elem? rest 0 ≢ some 47)

behind : (path rest : Str) → get_elem? (path ++ rest) (length path) ≡ get_elem? rest 0
behind [] rest = refl
behind (c ∷ path) rest = behind path rest

IsAt-cases :
    (uri path : Str)
    → (IsAt path uri × (is_resource uri path ≡ pos 0))
      ⊎ ((¬ IsAt path uri) × (is_resource uri path ≢ pos 0))
unfolding IsAt
IsAt-cases uri path = elim (is_resource_lem uri path) [
  | inl (e, z) ↦ inl (([], e ∙ sym (append-nil path), λ n. cc), z)
  | inr (inl (c, rest, e, z)) ↦ elim (Bool-cases (c == 47)) [
    | inl h ↦ inr (
      (λ (r, e', n). ground (arith, h, n, e, e', behind path (c ∷ rest), behind path r)),
      λ z'. ground (arith, h, z, z'),
    )
    | inr h ↦ inl ((c ∷ rest, e, λ n. ground (arith, h, n)), ground (arith, h, z))
  ]
  | inr (inr (out, z)) ↦ inr ((λ (r, e, _). out (r, e)), λ z'. ground (arith, z, z'))
]

serves :
    (q : Query)
    → q.has_req ≡ true
    → is_resource q.uri test_path ≡ pos 0
    → rest_gencb on_api_general q ≡ reply 200 (texts q.cmd ++ subject q) ∷ []
unfolding rest_gencb on_api_general on_api_test send_ok
serves q h z = ground (arith, z, h)

refuses :
    (q : Query) (z : ℤ)
    → q.has_req ≡ true
    → is_resource q.uri test_path ≡ z
    → z ≢ pos 0
    → rest_gencb on_api_general q ≡ error 501 ∷ []
unfolding rest_gencb on_api_general send_error
refuses q (pos zero) h e ne = absurd (ne refl)
refuses q (pos (suc n)) h e ne = ground (arith, e, h)
refuses q (negsuc n) h e ne = ground (arith, e, h)

-- The server as it is given, on a request from libevent, sends exactly one answer: status 200 for a
-- uri that is the test path or goes on behind it without `/`, with the text of the command, and the
-- error 501 for every other uri; never the error 500 behind it.
pub gencb_once :
    (q : Query)
    → q.has_req ≡ true
    → (IsAt test_path q.uri
        × (rest_gencb on_api_general q ≡ reply 200 (texts q.cmd ++ subject q) ∷ []))
      ⊎ ((¬ IsAt test_path q.uri) × (rest_gencb on_api_general q ≡ error 501 ∷ []))
gencb_once q h = elim (IsAt-cases q.uri test_path) [
  | inl (at, z) ↦ inl (at, serves q h z)
  | inr (out, ne) ↦ inr (out, refuses q (is_resource q.uri test_path) h refl ne)
]
