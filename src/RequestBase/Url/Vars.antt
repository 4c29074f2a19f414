-- ===== src/RequestBase/Url/Vars.antt =====
-- The variables of a URL: UrlVars of include/easy_http/request_base.h.
use easy_http.Prelude.{
  ℕ, zero, suc, ◌+◌, arith, ◌≡◌, refl, ap, List, [], ◌∷◌, ◌++◌, Bool, true, false,
}
use easy_http.Bytes.{Bytes, text}
use easy_http.Outcome.{Outcome, ok, undefined, throw, invalid_argument}
use easy_http.Values.{
  ValueType, Value, string, int, double, bool, time, ints, get_val, stoi, stoi_all, comma_fields,
  read_integer,
}
use easy_http.World.{World, continue}
use easy_http.World.External.{Platform, no_match, matched}
use easy_http.RequestBase.{RequestBase}
use easy_http.RequestBase.Fields.{path}
use easy_http.RequestBase.Url.{Tuple, group, both, tuple_helper, url_vars}

module _ (pf : Platform) where
  -- A group of the pattern that converts to a value of the type that is asked for.
  pub record Variable : Type 0 where
    pub type : ValueType
    pub group_text : Bytes
    pub value : Value type
    pub converts : get_val pf.stod type group_text ≡ ok value

  abbrev pub types_of : List Variable → List ValueType
  types_of [] = []
  types_of (v ∷ vs) = v.type ∷ types_of vs

  abbrev pub texts_of : List Variable → List Bytes
  texts_of [] = []
  texts_of (v ∷ vs) = v.group_text ∷ texts_of vs

  abbrev pub values_of : (vs : List Variable) → Tuple (types_of vs)
  values_of [] = tt
  values_of (v ∷ vs) = (v.value, values_of vs)

  -- The groups from an index on, where the first of the list are passed over.
  abbrev GroupsFrom : List Bytes → ℕ → List Bytes → Type 0
  GroupsFrom gs index texts = (k : ℕ) → group gs (index + k) ≡ group texts k

  GroupsFrom-suc :
      (gs : List Bytes) (index : ℕ) (g : Bytes) (texts : List Bytes)
      → GroupsFrom gs index (g ∷ texts)
      → GroupsFrom gs (suc index) texts
  unfolding group
  GroupsFrom-suc gs index g texts h k =
      let shift : suc index + k ≡ index + suc k = omega arith in rw shift (h (suc k))

  both-ok : {A B : Type 0} (first : Bool) (a : A) (b : B) → both first (ok a) (ok b) ≡ ok (a, b)
  both-ok true a b = refl
  both-ok false a b = refl

  tuple_helper-variables :
      (vs : List Variable) (more gs : List Bytes) (index : ℕ)
      → GroupsFrom gs index (texts_of vs ++ more)
      → tuple_helper pf (types_of vs) gs index ≡ ok (values_of vs)
  unfolding tuple_helper group
  tuple_helper-variables [] more gs index h = refl
  tuple_helper-variables (v ∷ vs) more gs index h =
      let here : group gs index ≡ v.group_text =
        (let zero_later : index + 0 ≡ index = omega arith in rw zero_later at (h 0)) in
      rw
        (
          here,
          v.converts,
          tuple_helper-variables vs more gs (suc index)
              (GroupsFrom-suc gs index v.group_text (texts_of vs ++ more) h),
        )
        (both-ok (pf.head_first index) v.value (values_of vs))

  -- There is no `double` among the types.
  abbrev pub HasNoDouble : List ValueType → Type 0
  HasNoDouble [] = Unit
  HasNoDouble (double ∷ ts) = ⊥
  HasNoDouble (_ ∷ ts) = HasNoDouble ts

  -- One of the types is read by stoi, an `int`, a `bool` or a vector of `int`, and none is a `double`.
  abbrev pub NeedsNumber : List ValueType → Type 0
  NeedsNumber [] = ⊥
  NeedsNumber (double ∷ ts) = ⊥
  NeedsNumber (string ∷ ts) = NeedsNumber ts
  NeedsNumber (time ∷ ts) = NeedsNumber ts
  NeedsNumber (_ ∷ ts) = HasNoDouble ts

  -- A value, or the exception of stoi.
  abbrev MayFail : {A : Type 0} → Outcome A → Type 0
  MayFail (ok a) = Unit
  MayFail (throw e) = e ≡ invalid_argument (text "stoi")
  MayFail undefined = ⊥

  both-MayFail :
      {A B : Type 0} (first : Bool) (a : Outcome A) (b : Outcome B)
      → MayFail a
      → MayFail b
      → MayFail (both first a b)
  both-MayFail true (ok a) (ok b) h k = tt
  both-MayFail true (ok a) (throw e) h k = k
  both-MayFail true (throw e) b h k = h
  both-MayFail true (ok a) undefined h k = elim k [ ]
  both-MayFail true undefined b h k = elim h [ ]
  both-MayFail false undefined (ok b) h k = elim h [ ]
  both-MayFail false a undefined h k = elim k [ ]
  both-MayFail false (ok a) (ok b) h k = tt
  both-MayFail false (throw e) (ok b) h k = h
  both-MayFail false a (throw e) h k = k

  both-throw :
      {A B : Type 0} (first : Bool) (b : Outcome B)
      → MayFail b
      → both {A = A} {B = B} first (throw (invalid_argument (text "stoi"))) b
        ≡ throw (invalid_argument (text "stoi"))
  both-throw true b h = refl
  both-throw false (ok b) h = refl
  both-throw false (throw e) h = ap throw h
  both-throw false undefined h = elim h [ ]

  both-last :
      {A B : Type 0} (first : Bool) (a : A)
      → both {A = A} {B = B} first (ok a) (throw (invalid_argument (text "stoi")))
        ≡ throw (invalid_argument (text "stoi"))
  both-last true a = refl
  both-last false a = refl

  tuple_helper-MayFail :
      (ts : List ValueType) (index : ℕ) → HasNoDouble ts → MayFail (tuple_helper pf ts [] index)
  unfolding tuple_helper group get_val stoi read_integer stoi_all comma_fields
  tuple_helper-MayFail [] index h = tt
  tuple_helper-MayFail (double ∷ ts) index h = elim h [ ]
  tuple_helper-MayFail (string ∷ ts) index h =
      both-MayFail (pf.head_first index) _ _ tt (tuple_helper-MayFail ts (suc index) h)
  tuple_helper-MayFail (time ∷ ts) index h =
      both-MayFail (pf.head_first index) _ _ tt (tuple_helper-MayFail ts (suc index) h)
  tuple_helper-MayFail (int ∷ ts) index h =
      both-MayFail (pf.head_first index) _ _ refl (tuple_helper-MayFail ts (suc index) h)
  tuple_helper-MayFail (bool ∷ ts) index h =
      both-MayFail (pf.head_first index) _ _ refl (tuple_helper-MayFail ts (suc index) h)
  tuple_helper-MayFail (ints ∷ ts) index h =
      both-MayFail (pf.head_first index) _ _ refl (tuple_helper-MayFail ts (suc index) h)

  tuple_helper-none :
      (ts : List ValueType) (index : ℕ)
      → NeedsNumber ts
      → tuple_helper pf ts [] index ≡ throw (invalid_argument (text "stoi"))
  unfolding tuple_helper group get_val stoi read_integer stoi_all comma_fields
  tuple_helper-none [] index h = elim h [ ]
  tuple_helper-none (double ∷ ts) index h = elim h [ ]
  tuple_helper-none (string ∷ ts) index h =
      rw (tuple_helper-none ts (suc index) h) (both-last (pf.head_first index) [])
  tuple_helper-none (time ∷ ts) index h =
      rw (tuple_helper-none ts (suc index) h) (both-last (pf.head_first index) _)
  tuple_helper-none (int ∷ ts) index h =
      both-throw (pf.head_first index) _ (tuple_helper-MayFail ts (suc index) h)
  tuple_helper-none (bool ∷ ts) index h =
      both-throw (pf.head_first index) _ (tuple_helper-MayFail ts (suc index) h)
  tuple_helper-none (ints ∷ ts) index h =
      both-throw (pf.head_first index) _ (tuple_helper-MayFail ts (suc index) h)

  module _ (self : RequestBase) (pattern_text p : Bytes) (w : World) where
    -- UrlVars of a path that matches the pattern gives the groups, converted to the types that are
    -- asked for, in their order; the groups beyond them are passed over.
    pub url_vars-matched :
        (vs : List Variable) (more : List Bytes)
        → path pf self w ≡ (ok p, w)
        → pf.regex_match pattern_text p ≡ matched (texts_of vs ++ more)
        → url_vars pf self (types_of vs) pattern_text w ≡ (ok (values_of vs), w)
    unfolding url_vars
    url_vars-matched vs more readable matches = rw (
      readable,
      continue,
      matches,
      tuple_helper-variables vs more (texts_of vs ++ more) 0
          (λ k. ap (group (texts_of vs ++ more)) (omega arith)),
    )

    -- UrlVars of a path that does not match the pattern raises the exception of stoi if one of the
    -- types is `int`, `bool` or a vector of `int` and none is `double`, in whatever order the texts
    -- are converted: that the match failed is not looked at, and an empty text is converted.
    pub url_vars-no_match :
        (ts : List ValueType)
        → path pf self w ≡ (ok p, w)
        → pf.regex_match pattern_text p ≡ no_match
        → NeedsNumber ts
        → url_vars pf self ts pattern_text w ≡ (throw (invalid_argument (text "stoi")), w)
    unfolding url_vars
    url_vars-no_match ts readable matches needs =
        rw (readable, continue, matches, tuple_helper-none ts zero needs)
