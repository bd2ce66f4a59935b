-- ===== src/Dict.antt =====
-- Python's `dict` with text keys, in insertion order; also a table that is read by a unique key.
-- Clients reason by the laws and leave the operations shut.
use mathlib.Core.Option
use artic_trader.Prelude.{
  String, ◌≡◌, refl, sym, ◌∙◌, Option, none, some, List, [], ◌∷◌, arith, str_eq, eq_iff,
  if◌then◌else◌,
}

abbrev pub Dict {ℓ} : Type ℓ → Type ℓ
Dict V = List (String × V)

module _ {ℓ} {V : Type ℓ} where
  -- d.get(k)
  unfoldable pub get : Dict V → String → Option V
  get [] k = none
  get ((j, v) ∷ d) k = if str_eq j k then some v else get d k

  -- d[k] = v keeps the place of a key that is there, and appends a new one.
  unfoldable pub put : Dict V → String → V → Dict V
  put [] k v = (k, v) ∷ []
  put ((j, w) ∷ d) k v = if str_eq j k then (k, v) ∷ d else (j, w) ∷ put d k v

  -- d.pop(k, None)
  unfoldable pub remove : Dict V → String → Dict V
  remove [] k = []
  remove ((j, w) ∷ d) k = let rest = remove d k in if str_eq j k then rest else (j, w) ∷ rest

  -- Replace the value at a key that is there; a missing key changes nothing.
  unfoldable pub modify : Dict V → String → (V → V) → Dict V
  modify [] k f = []
  modify ((j, w) ∷ d) k f = if str_eq j k then (j, f w) ∷ modify d k f else (j, w) ∷ modify d k f

  -- The row of a table with a unique key: the first is the only one.
  unfoldable pub assign : Dict V → String → (V → V) → Dict V
  assign [] k f = []
  assign ((j, w) ∷ d) k f =
      let rest = assign d k f in if str_eq j k then (j, f w) ∷ d else (j, w) ∷ rest

  pub get-put :
      (d : Dict V) (k j : String) (v : V)
      → get (put d k v) j ≡ (if str_eq k j then some v else get d j)
  unfolding get put
  get-put [] k j v = refl
  get-put ((i, w) ∷ d) k j v = ground (arith, eq_iff k j, eq_iff i k, eq_iff i j, get-put d k j v)

  pub get-remove :
      (d : Dict V) (k j : String) → get (remove d k) j ≡ (if str_eq k j then none else get d j)
  unfolding get remove
  get-remove [] k j = ground arith
  get-remove ((i, w) ∷ d) k j = ground (arith, eq_iff k j, eq_iff i k, eq_iff i j, get-remove d k j)

  pub get-modify :
      (d : Dict V) (k j : String) (f : V → V)
      → get (modify d k f) j ≡ (if str_eq k j then Option.map f (get d j) else get d j)
  unfolding get modify
  get-modify [] k j f = ground arith
  get-modify ((i, w) ∷ d) k j f =
      ground (arith, eq_iff k j, eq_iff i k, eq_iff i j, get-modify d k j f)

  pub get-assign :
      (d : Dict V) (k j : String) (f : V → V)
      → get (assign d k f) j ≡ (if str_eq k j then Option.map f (get d j) else get d j)
  unfolding get assign
  get-assign [] k j f = ground arith
  get-assign ((i, w) ∷ d) k j f =
      ground (arith, eq_iff k j, eq_iff i k, eq_iff i j, get-assign d k j f)

module _ {ℓ} {V : Type ℓ} where
  pub get-modify_self :
      (d : Dict V) (k : String) (f : V → V) → get (modify d k f) k ≡ Option.map f (get d k)
  get-modify_self d k f = ground (arith, get-modify d k k f, eq_iff k k)

  -- What is found after a change at its key was found before, and has been changed.
  pub modified :
      (d : Dict V) (k : String) (f : V → V) {v : V}
      → get (modify d k f) k ≡ some v
      → (w : V) × (get d k ≡ some w) × (v ≡ f w)
  modified d k f {v} e = inverse (get d k) (sym (get-modify_self d k f) ∙ e)
    where
      inverse : (o : Option V) → Option.map f o ≡ some v → (w : V) × (o ≡ some w) × (v ≡ f w)
      inverse none q = cc
      inverse (some w) q = (w, refl, cc)

pub get-empty {ℓ} : {V : Type ℓ} (k : String) → get {V = V} [] k ≡ none
unfolding get
get-empty k = refl

pub ruleset dict_laws = (get-empty, get-put, get-remove, get-modify_self, get-modify)
