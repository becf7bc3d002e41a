-- ===== src/Config/Listed.antt =====
-- parse_antennas: the antennas of a loaded configuration are valid, different and at most eight.
use mathlib.Core.List.{map-append}
use antenna_guardian_pi_lite.Common.{
  ◌+◌, ◌≤◌, true, false, not, ◌||◌, List, [], ◌∷◌, ◌++◌, map, Option, none, some, ◌≡◌, refl, sym,
  ap, subst, inl, inr, arith, Bool-cases, ltb, length, length-append, All, All-append,
}
use antenna_guardian_pi_lite.CString.{Text, codes, strcasecmp_eq}
use antenna_guardian_pi_lite.Config.{AntennaPolicy, Config, max_antennas}
use antenna_guardian_pi_lite.Json.{Json, holds_of}
use antenna_guardian_pi_lite.Config.Checks.{loaded, ◌>>=◌, valid_antenna_id}
use antenna_guardian_pi_lite.Config.Antennas.{
  is_listed, some_children, add_antennas, parse_antennas,
}
use antenna_guardian_pi_lite.Config.Yields.{
  Yields, any-Yields, loaded-Yields, bind-Yields, guard-Yields,
}

abbrev pub ids_of : List AntennaPolicy → List Text
ids_of = map (λ a. a.id)

abbrev pub Differs : Text → Text → Type 0
Differs id other = strcasecmp_eq id other ≡ false

-- No two ids agree in lower case.
abbrev pub AreDistinct : List Text → Type 0
AreDistinct [] = Unit
AreDistinct (id ∷ ids) = All (Differs id) ids × AreDistinct ids

AreDistinct-append :
    (ids : List Text) (id : Text)
    → AreDistinct ids
    → All (λ other. Differs other id) ids
    → AreDistinct (ids ++ id ∷ [])
AreDistinct-append [] id d h = (tt, tt)
AreDistinct-append (i ∷ ids) id d h =
    (All-append (Differs i) ids (id ∷ []) d.0 (h.0, tt), AreDistinct-append ids id d.1 h.1)

is_listed-Differs :
    (antennas : List AntennaPolicy) (id : Text)
    → is_listed antennas id ≡ false
    → All (λ other. Differs other id) (ids_of antennas)
unfolding is_listed
is_listed-Differs [] id h = tt
is_listed-Differs (a ∷ antennas) id h = elim (Bool-cases (strcasecmp_eq a.id id)) [
  | inl same ↦ absurd (ground (arith, same))
  | inr other ↦ (other, is_listed-Differs antennas id (rw other at h))
]

-- A list of antennas with valid and distinct ids, and no band allowed yet.
pub record IsFresh (antennas : List AntennaPolicy) : Type 0 where
  pub valid : All (λ id. valid_antenna_id id ≡ true) (ids_of antennas)
  pub distinct : AreDistinct (ids_of antennas)
  pub no_bands : All (λ a. a.allowed_bands ≡ 0) antennas

IsFresh-append :
    (antennas : List AntennaPolicy) (id : Text)
    → IsFresh antennas
    → valid_antenna_id id ≡ true
    → is_listed antennas id ≡ false
    → IsFresh (antennas ++ record { id = id; allowed_bands = 0 } ∷ [])
IsFresh-append antennas id f v l =
    let new : AntennaPolicy = record { id = id; allowed_bands = 0 } in
    let ids : ids_of (antennas ++ new ∷ []) ≡ ids_of antennas ++ id ∷ [] =
      map-append (λ a. a.id) antennas (new ∷ []) in
    record {
      valid =
          subst (All (λ i. valid_antenna_id i ≡ true)) (sym ids) (
            All-append (λ i. valid_antenna_id i ≡ true) (ids_of antennas) (id ∷ []) f.valid
              (v, tt));
      distinct =
          subst AreDistinct (sym ids)
            (AreDistinct-append (ids_of antennas) id f.distinct (is_listed-Differs antennas id l));
      no_bands = All-append (λ a. a.allowed_bands ≡ 0) antennas (new ∷ []) f.no_bands (refl, tt);
    }

module _ {J : Type 0} (json : Json J) where
  add_antennas-Yields :
      (antennas : List AntennaPolicy) (items : List J)
      → IsFresh antennas
      → Yields
          (add_antennas json antennas items)
          (λ r. IsFresh r × (length r ≡ length antennas + length items))
  unfolding add_antennas
  add_antennas-Yields antennas [] f = loaded-Yields (f, omega arith)
  add_antennas-Yields antennas (item ∷ items) f =
      let new : AntennaPolicy = record { id = json.valuestring item; allowed_bands = 0 } in
      let one_more = length-append antennas (new ∷ []) in
      guard-Yields _ _ _ (λ good. guard-Yields _ _ _ (λ unlisted.
        let y =
          add_antennas-Yields (antennas ++ new ∷ []) items
            (IsFresh-append antennas (json.valuestring item) f (ground (arith, good)) unlisted) in
        record { holds = λ r h. ((y.holds r h).0, omega (arith, one_more, (y.holds r h).1)) }))

  pub parse_antennas-Yields :
      (root : J) (c : Config)
      → c.antennas ≡ []
      → Yields (parse_antennas json root c) (λ d.
        IsFresh d.antennas
        × ((1 ≤ length d.antennas) × (length d.antennas ≤ max_antennas))
        × (d ≡ record c { antennas = d.antennas }))
  unfolding parse_antennas
  parse_antennas-Yields root c none_yet = bind-Yields _ _ (any-Yields _) (λ interlock _.
      bind-Yields _ _ (any-Yields _) (λ keys _.
        guard-Yields _ _ _
          (λ sized. with_array (json.get_item_case_sensitive interlock (codes "antennas")) sized)))
    where
      with_array :
          (antennas : Option J)
          → (not (holds_of json.is_array antennas)
              || (ltb (json.array_size antennas) 1 || ltb max_antennas (json.array_size antennas)))
            ≡ false
          → Yields
              (add_antennas json c.antennas (some_children json.children antennas) >>= λ listed.
                loaded (record c { antennas = listed }))
              (λ d.
                IsFresh d.antennas
                × ((1 ≤ length d.antennas) × (length d.antennas ≤ max_antennas))
                × (d ≡ record c { antennas = d.antennas }))
      with_array none sized = cc
      with_array (some j) sized =
          let size = json.array_size-children j (ground (arith, sized)) in
          let low : 1 ≤ json.array_size (some j) = ground (arith, sized) in
          let high : json.array_size (some j) ≤ max_antennas = ground (arith, sized) in
          let empty : length c.antennas ≡ 0 = ap length none_yet in
          let start : IsFresh c.antennas =
            subst IsFresh (sym none_yet) (record { valid = tt; distinct = tt; no_bands = tt }) in
          bind-Yields _ _ (add_antennas-Yields c.antennas (json.children j) start)
            (λ listed h. loaded-Yields (h.0, omega (arith, h.1, empty, size, low, high), refl))
