-- ===== src/Strategies/History.antt =====
-- user-server/user_server/strategies/cache.py, against a cache that forgets nothing.
use artic_trader.Prelude.{
  String, ◌≤◌, ◌≡◌, refl, sym, ◌∙◌, ap, Option, none, some, List, [], ◌∷◌, ◌++◌, map, eq_iff, arith,
}
use artic_trader.Prelude.Exec.{Result, ok, err}
use artic_trader.Dict.{Dict, get, remove, get-remove}
use artic_trader.Strategies.Python.{Interpreter}
use artic_trader.Strategies.Loader.{load_strategy}
use artic_trader.Strategies.Cache.{
  max_entries, move_to_end, evict, found, look_up, store, loaded, after_look_up, get_or_load,
  requests, cache_size,
}
use artic_trader.Strategies.Recency.{
  IsDistinct, get-append, move_to_end-IsDistinct, remove-put, length-move_to_end,
  length-remove_found, evict_short, length-evict, evict-move_to_end,
}

module _ {H : Type 0} where
  -- What is kept of a history with no key twice is what the history has.
  pub get-evict :
      (c : Dict H) (k : String) {v : H} → IsDistinct c → get (evict c) k ≡ some v → get c k ≡ some v
  unfolding evict get
  get-evict [] k d e = e
  get-evict ((i, w) ∷ c) k {v = v} d e = ground (arith, get-evict c k {v = v} d.1, d.0, eq_iff i k)

  -- A hit.
  evict_hit :
      (past : Dict H) (k : String) (h : H)
      → IsDistinct past
      → get (evict past) k ≡ some h
      → move_to_end (evict past) k h ≡ evict (move_to_end past k h)
  evict_hit past k h d e =
      sym (
        evict_short (move_to_end (evict past) k h) (
          omega (
            arith,
            length-move_to_end (evict past) k h,
            length-remove_found (evict past) k e,
            length-evict past,
          )))
      ∙ evict-move_to_end past k h d

  -- A handle that is stored.
  store_window :
      (past : Dict H) (k : String) (h : H)
      → IsDistinct past
      → store k h (evict past) ≡ evict (move_to_end past k h)
  unfolding store
  store_window past k h d =
      ap (λ rest. evict (rest ++ (k, h) ∷ [])) (remove-put (evict past) k h)
      ∙ evict-move_to_end past k h d

module _ {E H : Type 0} (hash : String → String) (load : String → Result E H) where
  -- Every entry is what the loader gives for the source with its hash.
  abbrev pub IsHonest : Dict H → Type 0
  IsHonest c = (s : String) (h : H) → get c (hash s) ≡ some h → load s ≡ ok h

  -- The history holds every handle that the loader ever gave, most recently asked for last.
  unfoldable pub note : Dict H → String → Dict H
  note past s = noted (load s)
    where
      noted : Result E H → Dict H
      noted (ok h) = move_to_end past (hash s) h
      noted (err e) = past

  pub record Tracks (past c : Dict H) : Type 0 where
    pub distinct : IsDistinct past
    pub honest : IsHonest past
    pub window : c ≡ evict past

  -- The request gave the loader's answer, and the cache tracks the history with the request noted.
  abbrev Served : Dict H → String → Result E H × Dict H → Type 0
  Served past s (r, c) = (r ≡ load s) × Tracks (note past s) c

  -- All requests noted.
  unfoldable pub history : Dict H → List String → Dict H
  history past [] = past
  history past (s ∷ ss) = history (note past s) ss

  empty-Tracks : Tracks [] []
  unfolding get evict
  empty-Tracks = record { distinct = tt; honest = λ s h e. cc; window = refl }

module _ {E H : Type 0} (hash : String → String) (load : String → Result E H)
    (collision_free : (s t : String) → hash s ≡ hash t → s ≡ t) where
  pub move_to_end-IsHonest :
      (c : Dict H) (s : String) (h : H)
      → load s ≡ ok h
      → IsHonest hash load c
      → IsHonest hash load (move_to_end c (hash s) h)
  move_to_end-IsHonest c s h l honest t g e = ground (
    arith,
    get-append (remove c (hash s)) (hash s) (hash t) h,
    get-remove c (hash s) (hash t),
    eq_iff (hash s) (hash t),
    collision_free s t,
    honest t g,
    l,
    e,
  )

  loaded-Served :
      (past : Dict H) (s : String) (r : Result E H)
      → load s ≡ r
      → Tracks hash load past (evict past)
      → Served hash load past s (loaded hash load (hash s) r (evict past))
  unfolding note
  loaded-Served past s (ok h) l t = (
    sym l,
    rw l (record {
      distinct = move_to_end-IsDistinct past (hash s) h t.distinct;
      honest = move_to_end-IsHonest past s h l t.honest;
      window = store_window past (hash s) h t.distinct;
    }),
  )
  loaded-Served past s (err e) l t = (sym l, rw l t)

  look_up-Served :
      (past : Dict H) (s : String) (h : Option H)
      → get (evict past) (hash s) ≡ h
      → Tracks hash load past (evict past)
      → Served hash load past s (after_look_up hash load s (found (evict past) (hash s) h))
  unfolding note
  look_up-Served past s none g t = loaded-Served past s (load s) refl t
  look_up-Served past s (some h) g t = (
    sym l,
    rw l (record {
      distinct = move_to_end-IsDistinct past (hash s) h t.distinct;
      honest = move_to_end-IsHonest past s h l t.honest;
      window = evict_hit past (hash s) h t.distinct g;
    }),
  )
    where
      l : load s ≡ ok h
      l = t.honest s h (get-evict past (hash s) t.distinct g)

  pub get_or_load-Served :
      (past c : Dict H) (s : String)
      → Tracks hash load past c
      → Served hash load past s (get_or_load hash load s c)
  unfolding get_or_load look_up
  get_or_load-Served past c s t = rw (t.window) (
      look_up-Served past s (get (evict past) (hash s)) refl
        (record { distinct = t.distinct; honest = t.honest; window = refl }))

  pub requests-Tracks :
      (ss : List String) (past c : Dict H)
      → Tracks hash load past c
      → ((requests hash load ss c).0 ≡ map load ss)
        × Tracks hash load (history hash load past ss) (requests hash load ss c).1
  unfolding requests history
  requests-Tracks [] past c t = (refl, t)
  requests-Tracks (s ∷ ss) past c t =
      let (e, t') = get_or_load-Served past c s t in
      let (es, t'') = requests-Tracks ss (note hash load past s) (get_or_load hash load s c).1 t' in
      (rw (e, es) refl, t'')

-- If no two sources share a hash, requests one after another on a new cache get the loader's own
-- answers, errors included; the cache then holds the most recently asked for of all handles ever
-- given, up to 256 of them, in the order of the requests.
pub requests-evict :
    {V A Code W : Type 0} (I : Interpreter V A Code W) (ss : List String)
    → ((s t : String) → I.sha256 s ≡ I.sha256 t → s ≡ t)
    → ((requests I.sha256 (load_strategy I) ss []).0 ≡ map (load_strategy I) ss)
      × ((requests I.sha256 (load_strategy I) ss []).1
          ≡ evict (history I.sha256 (load_strategy I) [] ss))
      × (cache_size (requests I.sha256 (load_strategy I) ss []).1 ≤ max_entries)
unfolding cache_size
requests-evict I ss free =
    let (e, t) = requests-Tracks I.sha256 (load_strategy I) free ss [] [] new in
    (e, t.window, rw (t.window) (length-evict (history I.sha256 (load_strategy I) [] ss)))
  where
    new : Tracks I.sha256 (load_strategy I) [] []
    new = empty-Tracks I.sha256 (load_strategy I)
