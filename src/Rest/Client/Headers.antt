-- ===== src/Rest/Client/Headers.antt =====
-- The headers of a request that DispatchJson prepares.
use zpp_adapter.Prelude.{
  Str, ◌≡◌, ap, ◌∙◌, refl, sym, subst, if◌then◌else◌, some, [], ◌∷◌, ◌++◌, append-nil, arith,
}
use zpp_adapter.Std.Assoc.{
  look, replace, Distinct, or_else, look_same, look-replace, replace-Distinct,
}
use zpp_adapter.Zsi.{Err, ok, not_exist}
use zpp_adapter.Rest.Client.{
  Names, Headers, with_header, Sending, Request, add_header, add_headers, add_out_buffer,
  fixed_headers, prepared,
}

module _ (n : Names) where
  replaced : (key value : Str) (h : Headers) → with_header n key value h ≡ replace n key value h
  unfolding with_header replace
  replaced key value h = refl

  look-with_header :
      (i key value : Str) (h : Headers)
      → Distinct n h
      → look n i (with_header n key value h) ≡ (if n.same key i then some value else look n i h)
  look-with_header i key value h d =
      ap (look n i) (replaced key value h) ∙ look-replace n i key value h d

  with_header-Distinct :
      (key value : Str) (h : Headers) → Distinct n h → Distinct n (with_header n key value h)
  with_header-Distinct key value h d =
      subst (Distinct n) (sym (replaced key value h)) (replace-Distinct n key value h d)

  -- The headers after `AddHeader` for each of a list.
  abbrev with_all : Headers → Headers → Headers
  with_all [] h = h
  with_all ((key, value) ∷ hs) h = with_all hs (with_header n key value h)

  with_all-Distinct : (hs h : Headers) → Distinct n h → Distinct n (with_all hs h)
  with_all-Distinct [] h d = d
  with_all-Distinct ((key, value) ∷ hs) h d =
      with_all-Distinct hs (with_header n key value h) (with_header-Distinct key value h d)

  look-with_all :
      (i : Str) (hs h : Headers)
      → Distinct n hs
      → Distinct n h
      → look n i (with_all hs h) ≡ or_else n (look n i hs) (look n i h)
  unfolding look
  look-with_all i [] h d e = refl
  look-with_all i ((key, value) ∷ hs) h (a, d) e = ground (
    arith,
    look-with_all i hs (with_header n key value h) d (with_header-Distinct key value h e),
    look-with_header i key value h e,
    look_same n key i hs,
    a,
    n.sym i key,
  )

  all_added :
      (hs : Headers) (q : Request) (s : Sending)
      → q.req ≡ some s
      → add_headers n hs q ≡ record q { req = some (record s { headers = with_all hs s.headers }) }
  unfolding add_headers add_header
  all_added [] q s e = ground (arith, e)
  all_added ((key, value) ∷ hs) q s e =
      let s' : Sending = record s { headers = with_header n key value s.headers } in
      ground (arith, e, all_added hs (record q { req = some s' }) s' refl)

  text_added :
      (text : Str) (q : Request) (s : Sending)
      → q.req ≡ some s
      → (ret : Err) × (add_out_buffer text q
          ≡ some (ret, record q { req = some (record s { out = s.out ++ text }) }))
  unfolding add_out_buffer
  text_added [] q s e = (not_exist, ground (arith, e, append-nil s.out))
  text_added (c ∷ text) q s e = (ok, ground (arith, e))

  -- What `DispatchJson` prepares, where the request is there and no header occurs twice: still none
  -- does; each of the six headers has its value, and every other one keeps its own; and the request's
  -- text is behind what was in the buffer.
  pub prepared_lem :
      (q : Request) (s : Sending) (i : Str)
      → q.req ≡ some s
      → Distinct n s.headers
      → Distinct n fixed_headers
      → (s' : Sending) × (prepared n q ≡ some (record q { req = some s' }))
        × Distinct n s'.headers
        × (look n i s'.headers ≡ or_else n (look n i fixed_headers) (look n i s.headers))
        × (s'.out ≡ s.out ++ q.request)
  unfolding prepared
  prepared_lem q s i e d fixed = (
    record { headers = with_all fixed_headers s.headers; out = s.out ++ q.request },
    (let s' : Sending = record s { headers = with_all fixed_headers s.headers } in
        let q' : Request = record q { req = some s' } in
        let (ret, added) = text_added q.request q' s' refl in
        ground (arith, all_added fixed_headers q s e, added)),
    with_all-Distinct fixed_headers s.headers d,
    look-with_all i fixed_headers s.headers fixed d,
    refl,
  )
