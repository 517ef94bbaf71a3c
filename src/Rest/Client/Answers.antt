-- ===== src/Rest/Client/Answers.antt =====
-- DispatchJson: the answer that the client is left with, and the answer of the server.
use zpp_adapter.Prelude.{
  ℕ, ◌≡◌, refl, ◌∙◌, true, Option, none, some, List, [], ◌∷◌, ◌++◌, Str, arith,
}
use zpp_adapter.Std.Order.{KeyOrder}
use zpp_adapter.Std.Assoc.{Distinct}
use zpp_adapter.Zsi.{ok}
use zpp_adapter.Rest.Serve.{Cmd, post, other, Incoming, parse_req, arrived, texts}
use zpp_adapter.Rest.Client.{
  Names, Sending, Request, Event, header, error, done, chunk, chunked, run_events, fixed_headers,
  dispatch_json,
}
use zpp_adapter.Rest.Client.Headers.{prepared_lem}

-- The loop is not broken.
abbrev pub NoDone : List Event → Type 0
NoDone [] = Unit {0}
NoDone (done ∷ es) = ⊥
NoDone (_ ∷ es) = NoDone es

chunked_keeps :
    (body : Str) (code : ℕ) (line : Str) (q : Request)
    → let q' = chunked body code line q in
      (q'.uri ≡ q.uri) × (q'.cmd ≡ q.cmd) × (q'.request ≡ q.request)
unfolding chunked
chunked_keeps [] code line q = (refl, refl, refl)
chunked_keeps (c ∷ body) code line q = (ground arith, ground arith, ground arith)

-- The last part of the body, if it has a byte, is the response, whatever came before it and whatever
-- waits behind the end.
last_part :
    (es rest : List Event) (c : ℕ) (body : Str) (code : ℕ) (line : Str) (q : Request)
    → NoDone es
    → let q' = run_events (es ++ (chunk (c ∷ body) code line ∷ (done ∷ rest))) q in
      (q'.response ≡ c ∷ body)
      × (q'.errcode ≡ code)
      × (q'.reason ≡ line)
      × (q'.uri ≡ q.uri)
      × (q'.cmd ≡ q.cmd)
      × (q'.request ≡ q.request)
unfolding run_events chunked
last_part [] rest c body code line q h = ground arith
last_part (header ∷ es) rest c body code line q h = last_part es rest c body code line q h
last_part (error ∷ es) rest c body code line q h = last_part es rest c body code line q h
last_part (done ∷ es) rest c body code line q h = absurd h
last_part (chunk b d l ∷ es) rest c body code line q h =
    let (a1, a2, a3, a4, a5, a6) = last_part es rest c body code line (chunked b d l q) h in
    let (k1, k2, k3) = chunked_keeps b d l q in (a1, a2, a3, a4 ∙ k1, a5 ∙ k2, a6 ∙ k3)

module _ (n : Names) where
  -- A new request over a connection, whose answer has a body, is done with `ZEOK`; the response is the
  -- part of the body that arrived last, with the code and the line of the answer, parts before it are
  -- lost, and events behind the end are not looked at. The request can be used again.
  pub dispatch_answer :
      (conn : Str × ℕ) (cmd : Cmd) (es rest : List Event) (c : ℕ) (body : Str) (code : ℕ)
      (line : Str) (q : Request)
      → q.req ≡ none
      → Distinct n fixed_headers
      → NoDone es
      → (q' : Request) × (dispatch_json n
            (some conn)
            cmd
            true
            true
            (es ++ (chunk (c ∷ body) code line ∷ (done ∷ rest)))
            q
          ≡ some (ok, q'))
        × (q'.response ≡ c ∷ body)
        × (q'.errcode ≡ code)
        × (q'.reason ≡ line)
        × (q'.req ≡ none)
        × (q'.uri ≡ q.uri)
        × (q'.cmd ≡ cmd)
        × (q'.request ≡ q.request)
  unfolding dispatch_json
  dispatch_answer conn cmd es rest c body code line q new fixed h =
      let empty : Sending = record { headers = []; out = [] } in
      let begun : Request = record q { cmd = cmd; req = some empty } in
      let (s', e, _, _, _) = prepared_lem n begun empty [] refl tt fixed in
      let events = es ++ (chunk (c ∷ body) code line ∷ (done ∷ rest)) in
      let sent : Request = record begun { req = some s' } in
      let (a1, a2, a3, a4, a5, a6) = last_part es rest c body code line sent h in
      (
        record (run_events events sent) { req = none },
        ground (arith, new, e),
        a1,
        a2,
        a3,
        refl,
        a4,
        a5,
        a6,
      )

-- The request that reaches the server, and the record that it makes of it.
abbrev pub incoming : Cmd → Option (List (Str × Str)) → Request → Incoming
incoming cmd pairs q = record {
  cmd = cmd;
  uri = q.uri;
  pairs = pairs;
  body = q.request;
  can_copy = true;
}

parsed :
    (o : KeyOrder Str) (cmd : Cmd) (pairs : Option (List (Str × Str))) (q : Request)
    → let q' = (parse_req o (incoming cmd pairs q) (arrived (incoming cmd pairs q))).1 in
      (q'.has_req ≡ true) × (q'.cmd ≡ cmd) × (q'.uri ≡ q.uri) × (q'.request ≡ q.request)
unfolding parse_req
parsed o cmd pairs q = (ground arith, ground arith, ground arith, text q.request)
  where
    text :
        (body : Str)
        → (parse_req o
            (incoming cmd pairs (record q { request = body }))
            (arrived (incoming cmd pairs (record q { request = body })))).1.request
          ≡ body
    text [] = refl
    text (c ∷ body) = ground arith

-- What the test resource answers to a command, by the uri and the text of the request.
abbrev pub answer_text : Cmd → Str → Str → Str
answer_text cmd uri body = texts cmd ++ elim cmd [ post ↦ body | other ↦ [] | _ ↦ uri ]
