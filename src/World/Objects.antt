-- ===== src/World/Objects.antt =====
-- The objects that libevent makes for a server or a client, over the calls made: which were made and freed, and
-- which calls are made of objects that are not freed yet.
use easy_http.Prelude.{
  Option, none, some, ℕ, ◌+◌, ◌<◌, ◌≤◌, ◌==◌, List, [], ◌∷◌, Bool, true, false, Bool-cases, inl,
  inr, ◌≡◌, refl, arith, if◌then◌else◌, ==_iff,
}
use easy_http.World.Calls.{
  Call, base_new, base_free, http_new, http_free, config_new, config_free, evsignal_new, event_add,
  event_free, dns_new, dns_free, connection_new, dispatch, loop_exit, set_allowed_methods,
  set_gencb, set_max_body_size, bind_socket,
}
use easy_http.World.External.{Platform}

pub data Kind : Type 0 where
  base http config event dns : Kind

abbrev is_kind : Kind → Kind → Bool
is_kind base base = true
is_kind http http = true
is_kind config config = true
is_kind event event = true
is_kind dns dns = true
is_kind _ _ = false

-- What a call makes, and what it frees.
abbrev pub new_kind : Call → Option Kind
new_kind base_new = some base
new_kind (http_new b) = some http
new_kind config_new = some config
new_kind (evsignal_new b) = some event
new_kind (dns_new b) = some dns
new_kind _ = none

abbrev pub released : Call → Option (Kind × ℕ)
released (base_free b) = some (base, b)
released (http_free h) = some (http, h)
released (config_free c) = some (config, c)
released (event_free e) = some (event, e)
released (dns_free d) = some (dns, d)
released _ = none

-- Whether a call makes an object of the kind.
abbrev pub makes : Kind → Call → Bool
makes kind c = elim (new_kind c) [ none ↦ false | some k ↦ is_kind k kind ]

-- How often a call frees the object p of the kind.
abbrev pub frees : Kind → ℕ → Call → ℕ
frees kind p c = elim (released c) [
  | none ↦ 0
  | some (k, q) ↦ if is_kind k kind then if q == p then 1 else 0 else 0
]

unfoldable pub freed : Kind → ℕ → List Call → ℕ
freed kind p [] = 0
freed kind p (c ∷ calls) = frees kind p c + freed kind p calls

free_bound : (q p : ℕ) (f m : ℕ → ℕ) → f q < m q → f p ≤ m p → (if q == p then 1 else 0) + f p ≤ m p
free_bound q p f m alive h = elim (Bool-cases (q == p)) [
  | inl e ↦
      let same : q ≡ p = (==_iff q p).0 e in
      let alive_p : f p < m p = rw same at alive in rw e (omega (arith, alive_p))
  | inr e ↦ rw e (omega (arith, h))
]

module _ (pf : Platform) where
  -- How often libevent gave p for a new object of the kind.
  unfoldable pub made : Kind → ℕ → List Call → ℕ
  made kind p [] = 0
  made kind p (c ∷ calls) =
      (if makes kind c then if pf.pointer calls c == p then 1 else 0 else 0) + made kind p calls

  -- The object p, not NULL, is there: it was freed less often than it was made.
  abbrev pub IsAlive : Kind → ℕ → List Call → Type 0
  IsAlive kind p calls = ((p == 0) ≡ false) × (freed kind p calls < made kind p calls)

  -- What a call needs to be there.
  abbrev pub Needs : Call → List Call → Type 0
  Needs (base_free b) calls = IsAlive base b calls
  Needs (loop_exit b) calls = IsAlive base b calls
  Needs (dispatch b) calls = IsAlive base b calls
  Needs (http_new b) calls = IsAlive base b calls
  Needs (evsignal_new b) calls = IsAlive base b calls
  Needs (dns_new b) calls = IsAlive base b calls
  Needs (connection_new b d host port) calls = IsAlive base b calls × IsAlive dns d calls
  Needs (dns_free d) calls = IsAlive dns d calls
  Needs (http_free h) calls = IsAlive http h calls
  Needs (set_allowed_methods h methods) calls = IsAlive http h calls
  Needs (set_gencb h) calls = IsAlive http h calls
  Needs (set_max_body_size h size) calls = IsAlive http h calls
  Needs (bind_socket h ip port) calls = IsAlive http h calls
  Needs (config_free c) calls = IsAlive config c calls
  Needs (event_add e) calls = IsAlive event e calls
  Needs (event_free e) calls = IsAlive event e calls
  Needs _ calls = Unit

  -- Every call was made when what it needs was there.
  unfoldable pub AreSafe : List Call → Type 0
  AreSafe [] = Unit
  AreSafe (c ∷ calls) = Needs c calls × AreSafe calls

  -- A call that frees p needs it.
  frees_bound :
      (kind : Kind) (p : ℕ) (c : Call) (calls : List Call)
      → Needs c calls
      → freed kind p calls ≤ made kind p calls
      → frees kind p c + freed kind p calls ≤ made kind p calls
  frees_bound base p (base_free q) calls alive h =
      free_bound q p (λ r. freed base r calls) (λ r. made base r calls) alive.1 h
  frees_bound http p (http_free q) calls alive h =
      free_bound q p (λ r. freed http r calls) (λ r. made http r calls) alive.1 h
  frees_bound config p (config_free q) calls alive h =
      free_bound q p (λ r. freed config r calls) (λ r. made config r calls) alive.1 h
  frees_bound event p (event_free q) calls alive h =
      free_bound q p (λ r. freed event r calls) (λ r. made event r calls) alive.1 h
  frees_bound dns p (dns_free q) calls alive h =
      free_bound q p (λ r. freed dns r calls) (λ r. made dns r calls) alive.1 h
  frees_bound base p _ calls alive h = omega (arith, h)
  frees_bound http p _ calls alive h = omega (arith, h)
  frees_bound config p _ calls alive h = omega (arith, h)
  frees_bound event p _ calls alive h = omega (arith, h)
  frees_bound dns p _ calls alive h = omega (arith, h)

  -- If all calls were safe, no object was freed more often than it was made.
  pub freed_bound :
      (kind : Kind) (p : ℕ) (calls : List Call)
      → AreSafe calls
      → freed kind p calls ≤ made kind p calls
  unfolding freed made AreSafe
  freed_bound kind p [] safe = omega arith
  freed_bound kind p (c ∷ calls) safe =
      let before = freed_bound kind p calls safe.1 in
      let more = frees_bound kind p c calls safe.0 before in omega (arith, before, more)

  -- What a call has made is there, if it is not NULL.
  pub made-IsAlive :
      (kind : Kind) (c : Call) (calls : List Call)
      → makes kind c ≡ true
      → (pf.pointer calls c == 0) ≡ false
      → Needs c calls
      → AreSafe calls
      → IsAlive kind (pf.pointer calls c) (c ∷ calls)
  unfolding freed made
  made-IsAlive kind c calls new some_object needs safe =
      let p = pf.pointer calls c in
      let same = (==_iff p p).1 refl in
      let more = frees_bound kind p c calls needs (freed_bound kind p calls safe) in
      (some_object, rw (new, same) (omega (arith, more)))

  -- What is there stays so, but for the calls that free it.
  pub IsAlive-later :
      (kind : Kind) (p : ℕ) (c : Call) (calls : List Call)
      → frees kind p c ≡ 0
      → IsAlive kind p calls
      → IsAlive kind p (c ∷ calls)
  unfolding freed made
  IsAlive-later kind p c calls unfreed alive = (alive.0, omega (arith, unfreed, alive.1))

  -- As many objects were freed as were made between the first calls and all calls, each as often.
  abbrev pub IsEven : List Call → List Call → Type 0
  IsEven before after =
      (kind : Kind) (p : ℕ)
      → made kind p after + freed kind p before ≡ freed kind p after + made kind p before

  -- A call that makes and frees nothing.
  abbrev pub IsPlain : Call → Type 0
  IsPlain c = (new_kind c ≡ none) × (released c ≡ none)

  pub made-IsPlain :
      (kind : Kind) (p : ℕ) (c : Call) (calls : List Call)
      → IsPlain c
      → made kind p (c ∷ calls) ≡ made kind p calls
  unfolding made
  made-IsPlain kind p c calls plain =
      let unmade : makes kind c ≡ false = rw (makes, plain.0) refl in rw unmade (omega arith)

  pub freed-IsPlain :
      (kind : Kind) (p : ℕ) (c : Call) (calls : List Call)
      → IsPlain c
      → freed kind p (c ∷ calls) ≡ freed kind p calls
  unfolding freed
  freed-IsPlain kind p c calls plain =
      let unfreed : frees kind p c ≡ 0 = rw (frees, plain.1) refl in omega (arith, unfreed)

  pub IsAlive-IsPlain :
      (kind : Kind) (p : ℕ) (c : Call) (calls : List Call)
      → IsPlain c
      → IsAlive kind p calls
      → IsAlive kind p (c ∷ calls)
  IsAlive-IsPlain kind p c calls plain alive =
      IsAlive-later kind p c calls (rw (frees, plain.1) refl) alive
