-- ===== src/Strategies/Recency.antt =====
-- user-server/user_server/strategies/cache.py: the order of eviction.
use artic_trader.Prelude.{
  suc, String, ◌+◌, ◌≤◌, ◌≡◌, refl, sym, ◌∙◌, ap, true, false, none, some, [], ◌∷◌, ◌++◌, length,
  length-append, ltb, str_eq, eq_iff, arith, if◌then◌else◌, if_both, Bool-cases, inl, inr,
}
use artic_trader.Dict.{Dict, get, put, remove, get-remove}
use artic_trader.Strategies.Cache.{max_entries, move_to_end, evict}

module _ {H : Type 0} where
  -- No key stands twice.
  abbrev pub IsDistinct : Dict H → Type 0
  IsDistinct [] = Unit
  IsDistinct ((k, v) ∷ c) = (get c k ≡ none) × IsDistinct c

  pub get-append :
      (c : Dict H) (k j : String) (v : H)
      → get (c ++ (k, v) ∷ []) j
        ≡ elim (get c j) [ some w ↦ some w | none ↦ if str_eq k j then some v else none ]
  unfolding get
  get-append [] k j v = refl
  get-append ((i, w) ∷ c) k j v = ground (arith, get-append c k j v)

  remove-IsDistinct : (c : Dict H) (k : String) → IsDistinct c → IsDistinct (remove c k)
  unfolding remove
  remove-IsDistinct [] k d = tt
  remove-IsDistinct ((i, w) ∷ c) k (f, d) = elim (Bool-cases (str_eq i k)) [
    | inl e ↦ rw e (remove-IsDistinct c k d)
    | inr e ↦ rw e (ground (arith, get-remove c k i, f), remove-IsDistinct c k d)
  ]

  append-IsDistinct :
      (c : Dict H) (k : String) (v : H)
      → get c k ≡ none
      → IsDistinct c
      → IsDistinct (c ++ (k, v) ∷ [])
  unfolding get
  append-IsDistinct [] k v f d = (refl, tt)
  append-IsDistinct ((i, w) ∷ c) k v f (g, d) = (
    ground (arith, get-append c k i v, eq_iff k i, eq_iff i k, g, f),
    append-IsDistinct c k v (ground (arith, f)) d,
  )

  pub move_to_end-IsDistinct :
      (c : Dict H) (k : String) (v : H) → IsDistinct c → IsDistinct (move_to_end c k v)
  move_to_end-IsDistinct c k v d =
      append-IsDistinct (remove c k) k v (ground (arith, get-remove c k k, eq_iff k k))
        (remove-IsDistinct c k d)

  remove_missing : (c : Dict H) (k : String) → get c k ≡ none → remove c k ≡ c
  unfolding get remove
  remove_missing [] k f = refl
  remove_missing ((i, w) ∷ c) k f = ground (arith, remove_missing c k, f)

  rest_none : (c : Dict H) (i k : String) → str_eq i k ≡ true → get c i ≡ none → get c k ≡ none
  rest_none c i k e f = ground (arith, eq_iff i k, e, f)

  length-remove_le : (c : Dict H) (k : String) → length (remove c k) ≤ length c
  unfolding remove
  length-remove_le [] k = omega arith
  length-remove_le ((i, w) ∷ c) k = ground (arith, length-remove_le c k)

  length-remove : (c : Dict H) (k : String) → IsDistinct c → length c ≤ length (remove c k) + 1
  unfolding remove
  length-remove [] k d = omega arith
  length-remove ((i, w) ∷ c) k (f, d) = elim (Bool-cases (str_eq i k)) [
    | inl e ↦ rw e (omega (arith, ap length (remove_missing c k (rest_none c i k e f))))
    | inr e ↦ rw e (omega (arith, length-remove c k d))
  ]

  tail :
      (c : Dict H) (i k : String) (w : H) {v : H}
      → str_eq i k ≡ false
      → get ((i, w) ∷ c) k ≡ some v
      → get c k ≡ some v
  unfolding get
  tail c i k w e f = ground (arith, e, f)

  pub length-remove_found :
      (c : Dict H) (k : String) {v : H} → get c k ≡ some v → length (remove c k) + 1 ≤ length c
  unfolding remove get
  length-remove_found [] k f = cc
  length-remove_found ((i, w) ∷ c) k f = elim (Bool-cases (str_eq i k)) [
    | inl e ↦ rw e (omega (arith, length-remove_le c k))
    | inr e ↦ rw e (omega (arith, length-remove_found c k (tail c i k w e f)))
  ]

  pub remove-put : (c : Dict H) (k : String) (v : H) → remove (put c k v) k ≡ remove c k
  unfolding remove put
  remove-put [] k v = ground (arith, eq_iff k k)
  remove-put ((i, w) ∷ c) k v = ground (arith, eq_iff i k, eq_iff k k, remove-put c k v)

  pub length-move_to_end :
      (c : Dict H) (k : String) (v : H) → length (move_to_end c k v) ≡ length (remove c k) + 1
  length-move_to_end c k v = length-append (remove c k) ((k, v) ∷ [])

  -- What is short enough is left alone.
  pub evict_short : (c : Dict H) → length c ≤ max_entries → evict c ≡ c
  unfolding evict
  evict_short [] h = refl
  evict_short (x ∷ c) h = ground (arith, h)

  pub length-evict : (c : Dict H) → length (evict c) ≤ max_entries
  unfolding evict
  length-evict [] = omega arith
  length-evict (x ∷ c) = ground (arith, length-evict c)

  pub evict-IsDistinct : (c : Dict H) → IsDistinct c → IsDistinct (evict c)
  unfolding evict
  evict-IsDistinct [] d = tt
  evict-IsDistinct ((k, v) ∷ c) (f, d) =
      if_both IsDistinct (ltb max_entries (length ((k, v) ∷ c))) (evict c) ((k, v) ∷ c)
        (evict-IsDistinct c d) (f, d)

  evict_long : (x : String × H) (c : Dict H) → max_entries ≤ length c → evict (x ∷ c) ≡ evict c
  unfolding evict
  evict_long x c h = ground (arith, h)

  touched :
      (i : String) (w : H) (c : Dict H) (k : String) (v : H)
      → IsDistinct c
      → max_entries ≤ length c
      → evict (move_to_end ((i, w) ∷ c) k v) ≡ evict (move_to_end c k v)
  unfolding remove
  touched i w c k v d h = elim (Bool-cases (str_eq i k)) [
    | inl e ↦ rw e refl
    | inr e ↦ rw e (
        evict_long (i, w) (move_to_end c k v)
          (omega (arith, length-move_to_end c k v, length-remove c k d)))
  ]

  -- To forget the oldest entries before an entry is touched or after it is the same.
  pub evict-move_to_end :
      (c : Dict H) (k : String) (v : H)
      → IsDistinct c
      → evict (move_to_end (evict c) k v) ≡ evict (move_to_end c k v)
  unfolding evict
  evict-move_to_end [] k v d = refl
  evict-move_to_end ((i, w) ∷ c) k v (f, d) = elim (Bool-cases (ltb max_entries (suc (length c)))) [
    | inl e ↦ rw e (evict-move_to_end c k v d ∙ sym (touched i w c k v d (ground (arith, e))))
    | inr e ↦ rw e refl
  ]
