-- ===== src/Json/Access.antt =====
-- The setters and getters of RJson.
use zpp_adapter.Prelude.{
  ◌≡◌, refl, true, false, ◌||◌, if◌then◌else◌, Option, none, some, Option-cases, Bool-cases, ◌⊎◌,
  inl, inr, arith,
}
use zpp_adapter.Zsi.{Err, ok, param_invalid, cast_fail}
use zpp_adapter.Json.{
  Keys, Scalar, Rapid, RJson, val_object, set_int, get_int, set_uint, get_uint, set_string,
  get_string, set_int64, get_int64, set_uint64, get_uint64, set_double, get_double, set_bool,
  get_bool, get_member, add_member, is_object, is_array, set_scalar, get_scalar, get_by_key,
}

module _ {k : Keys} (r : Rapid k) where
  -- An object with an allocator.
  abbrev pub holding : r.Value → RJson r
  holding v = record { val = some v; alloc = true }

  -- Setting `key` of the object `v` to `x`: it succeeds, getting the key then gives `x`, and of the
  -- other members, such as `i`, none changes; or the key holds a value of another type, and the
  -- object is left as it is.
  abbrev pub Agrees :
      (s : Scalar r.Value)
      → (Option k.Key → s.T → RJson r → Option (Err × RJson r))
      → (Option k.Key → RJson r → Option (Err × Option s.T))
      → k.Key
      → s.T
      → k.Key
      → r.Value
      → Type 0
  Agrees s put look key x i v =
      ((w : r.Value) × (put (some key) x (holding v) ≡ some (ok, holding w))
        × (look (some key) (holding w) ≡ some (ok, some x))
        × (r.find i w ≡ (if k.same key i then some (s.make x) else r.find i v)))
      ⊎ ((old : r.Value) × (r.find key v ≡ some old)
          × (s.is old ≡ false)
          × (put (some key) x (holding v) ≡ some (cast_fail, holding v)))

module _ {k : Keys} (reflexive : (i : k.Key) → k.same i i ≡ true) (r : Rapid k) where
  looked_up :
      (s : Scalar r.Value) (key : k.Key) (x : s.T) (w : r.Value)
      → r.kind w ≡ val_object
      → r.find key w ≡ some (s.make x)
      → get_by_key r s key w ≡ some (ok, some x)
  looked_up s key x w o f = ground (arith, o, f, s.is-make x, s.get-make x)

  scalar-Agrees :
      (s : Scalar r.Value) (key : k.Key) (x : s.T) (i : k.Key) (v : r.Value)
      → r.kind v ≡ val_object
      → Agrees r s (set_scalar r s) (get_scalar r s) key x i v
  scalar-Agrees s key x i v o = elim (Option-cases (r.find key v)) [
    | inl e ↦
        let w = r.add key (s.make x) v in
        let here = r.find-add key key (s.make x) v o e in
        let found : r.find key w ≡ some (s.make x) = ground (arith, here, reflexive key) in
        inl (
          w,
          ground (arith, o, e),
          looked_up s key x w (r.object-add key (s.make x) v o) found,
          r.find-add i key (s.make x) v o e,
        )
    | inr (old, e) ↦ elim (Bool-cases (s.is old)) [
      | inl t ↦
          let w = r.put key (s.make x) v in
          let here = r.find-put key key (s.make x) v old e in
          let found : r.find key w ≡ some (s.make x) = ground (arith, here, reflexive key) in
          inl (
            w,
            ground (arith, o, e, t),
            looked_up s key x w (r.object-put key (s.make x) v o) found,
            r.find-put i key (s.make x) v old e,
          )
      | inr t ↦ inr (old, e, t, ground (arith, o, e, t))
    ]
  ]

  -- The setter and the getter of each of the seven types agree on the members of an object.
  pub getters_agree :
      (key i : k.Key) (v : r.Value) (a : r.int.T) (b : r.uint.T) (c : r.int64.T) (d : r.uint64.T)
      (e : r.string.T) (f : r.double.T) (g : r.bool.T)
      → r.kind v ≡ val_object
      → Agrees r r.int (set_int r) (get_int r) key a i v
        × Agrees r r.uint (set_uint r) (get_uint r) key b i v
        × Agrees r r.int64 (set_int64 r) (get_int64 r) key c i v
        × Agrees r r.uint64 (set_uint64 r) (get_uint64 r) key d i v
        × Agrees r r.string (set_string r) (get_string r) key e i v
        × Agrees r r.double (set_double r) (get_double r) key f i v
        × Agrees r r.bool (set_bool r) (get_bool r) key g i v
  unfolding set_int get_int set_uint get_uint set_int64 get_int64 set_uint64 get_uint64 set_string
      get_string set_double get_double set_bool get_bool
  getters_agree key i v a b c d e f g o = (
    scalar-Agrees r.int key a i v o,
    scalar-Agrees r.uint key b i v o,
    scalar-Agrees r.int64 key c i v o,
    scalar-Agrees r.uint64 key d i v o,
    scalar-Agrees r.string key e i v o,
    scalar-Agrees r.double key f i v o,
    scalar-Agrees r.bool key g i v o,
  )

  -- With no key `GetInt` gives the value itself if it is an int; the other getters, here `GetUint`,
  -- then go on to look for the member NULL, which is undefined. Both report a value of another type.
  pub get_without_key :
      (v : r.Value)
      → (get_int r none (holding r v)
          ≡ some (if r.int.is v then (ok, some (r.int.get v)) else (param_invalid, none)))
        × (get_uint r none (holding r v)
            ≡ (if r.uint.is v then none else some (param_invalid, none)))
  unfolding get_int get_uint
  get_without_key v = (refl, refl)

  -- On an object that holds the key once at most, `AddMember` puts the given value in for a new key
  -- and in the place of an object or array, where `GetMember` then finds it; a member of another type
  -- is kept, and reported.
  pub get_member-add_member :
      (key : k.Key) (x v : r.Value)
      → r.kind v ≡ val_object
      → r.find key (r.erase key v) ≡ none
      → ((w : r.Value) × (add_member r (some key) x (holding r v) ≡ some (ok, holding r w))
          × (get_member r (some key) (holding r w) ≡ some (ok, some x)))
        ⊎ ((old : r.Value) × (r.find key v ≡ some old)
            × ((is_object (r.kind old) || is_array (r.kind old)) ≡ false)
            × (add_member r (some key) x (holding r v) ≡ some (cast_fail, holding r v)))
  unfolding add_member get_member
  get_member-add_member key x v o once = elim (Option-cases (r.find key v)) [
    | inl e ↦ inl (
      r.add key x v,
      ground (arith, o, e),
      ground (arith, r.object-add key x v o, r.find-add key key x v o e, reflexive key),
    )
    | inr (old, e) ↦ elim (Bool-cases (is_object (r.kind old) || is_array (r.kind old))) [
      | inl t ↦ inl (
        r.add key x (r.erase key v),
        ground (arith, o, e, t),
        ground (
          arith,
          r.object-add key x (r.erase key v) (r.object-erase key v o),
          r.find-add key key x (r.erase key v) (r.object-erase key v o) once,
          reflexive key,
        ),
      )
      | inr t ↦ inr (old, e, t, ground (arith, o, e, t))
    ]
  ]
