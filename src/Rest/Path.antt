-- ===== src/Rest/Path.antt =====
-- Request::IsResource, and RestServer::Run and RestServer::Stop.
use zpp_adapter.Prelude.{
  ℕ, ◌<◌, ◌≡◌, ◌≢◌, refl, ap, ap₂, subst, ◌∙◌, ◌⊎◌, inl, inr, Bool-cases, true, false, ◌==◌,
  if◌then◌else◌, some, [], ◌∷◌, ◌++◌, append-nil, length, length-append, get_elem?, pos, negsuc,
  arith,
}
use zpp_adapter.Zsi.{Err, exist, not_exist}
use zpp_adapter.Prelude.{Str}
use zpp_adapter.Rest.{same_upto, is_resource, Server, run, api, stop}

same_upto_append : (path rest : Str) → same_upto (length path) (path ++ rest) path ≡ true
unfolding same_upto
same_upto_append [] rest = refl
same_upto_append (c ∷ path) rest = ground (arith, same_upto_append path rest)

get_after :
    (path : Str) (c : ℕ) (rest : Str) → get_elem? (path ++ (c ∷ rest)) (length path) ≡ some c
get_after [] c rest = refl
get_after (b ∷ path) c rest = get_after path c rest

same_upto_split :
    (uri path : Str) → same_upto (length path) uri path ≡ true → (rest : Str) × (uri ≡ path ++ rest)
unfolding same_upto
same_upto_split uri [] h = (uri, refl)
same_upto_split [] (c ∷ path) h = cc
same_upto_split (b ∷ uri) (c ∷ path) h =
    let (rest, e) = same_upto_split uri path (ground (arith, h)) in
    let same : b ≡ c = ground (arith, h) in (rest, ap₂ (λ x y. x ∷ y) same e)

differs : (path rest : Str) → same_upto (length path) (path ++ rest) path ≢ false
differs path rest h = ground (arith, h, same_upto_append path rest)

equal_lengths :
    (uri path : Str)
    → same_upto (length path) uri path ≡ true
    → length uri ≡ length path
    → is_resource uri path ≡ pos 0
unfolding is_resource
equal_lengths uri path h e =
    let all : same_upto (length uri) uri path ≡ true = ap (λ n. same_upto n uri path) e ∙ h in
    ground (arith, e, all)

begins :
    (uri path rest : Str)
    → same_upto (length path) uri path ≡ true
    → uri ≡ path ++ rest
    → ((uri ≡ path) × (is_resource uri path ≡ pos 0))
      ⊎ ((c : ℕ) × (rest : Str) × (uri ≡ path ++ (c ∷ rest))
          × (is_resource uri path ≡ (if c == 47 then pos 1 else pos 0)))
      ⊎ ((¬ ((rest : Str) × (uri ≡ path ++ rest))) × (is_resource uri path ≡ negsuc 0))
unfolding is_resource
begins uri path [] h e =
    let same = e ∙ append-nil path in inl (same, equal_lengths uri path h (ap length same))
begins uri path (c ∷ rest) h e =
    let there : get_elem? uri (length path) ≡ some c =
      ap (λ u. get_elem? u (length path)) e ∙ get_after path c rest in
    let long : length path < length uri =
      omega (arith, ap length e, length-append path (c ∷ rest)) in
    inr (inl (c, rest, e, ground (arith, h, there, long)))

-- `IsResource` answers 0 for the path itself and also for a longer uri that goes on without `/`, 1 for
-- the path with `/` behind it, and -1 exactly for a uri that does not begin with the path.
pub is_resource_lem :
    (uri path : Str)
    → ((uri ≡ path) × (is_resource uri path ≡ pos 0))
      ⊎ ((c : ℕ) × (rest : Str) × (uri ≡ path ++ (c ∷ rest))
          × (is_resource uri path ≡ (if c == 47 then pos 1 else pos 0)))
      ⊎ ((¬ ((rest : Str) × (uri ≡ path ++ rest))) × (is_resource uri path ≡ negsuc 0))
unfolding is_resource
is_resource_lem uri path = elim (Bool-cases (same_upto (length path) uri path)) [
  | inl h ↦ (let (rest, e) = same_upto_split uri path h in begins uri path rest h e)
  | inr h ↦ inr (
      inr (
        (λ b. differs path b.0 (subst (λ u. same_upto (length path) u path ≡ false) b.1 h)),
        ground (arith, h, ap (λ n. same_upto n uri path)),
      ))
]

-- The server's life: a second `Run` is refused and changes nothing, whatever became of the first; a
-- `Stop` after a `Run` joins and a further one is refused; and the request that ends the server's
-- loop goes to port 8989, whatever the server's port is.
pub server_life :
    (started joined : Err) (port other : ℕ) (s : Server)
    → s.is_run ≡ false
    → let (r1, s1) = run started port s in
      let (r2, s2) = run started other s1 in
      let (r3, asked, s3) = stop joined s2 in
      let (r4, _, s4) = stop joined s3 in
      (r1 ≡ started)
      × (r2 ≡ exist)
      × (s2 ≡ record { port = port; is_run = true })
      × (r3 ≡ joined)
      × (asked ≡ some (record { port = 8989; uri = api }))
      × (r4 ≡ not_exist)
      × (s4 ≡ record { port = port; is_run = false })
unfolding run stop
server_life started joined port other s h = ground (arith, h)
