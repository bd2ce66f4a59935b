-- ===== src/Strategies/Threads.antt =====
-- user-server/user_server/strategies/cache.py under threads: between the two parts of a request, the
-- parts of others may run.
use artic_trader.Prelude.{String, ◌≤◌, ◌≡◌, refl, Option, none, some, [], length, arith}
use artic_trader.Prelude.Exec.{Result, ok}
use artic_trader.Dict.{Dict, get}
use artic_trader.Strategies.Python.{Interpreter}
use artic_trader.Strategies.Loader.{StrategyHandle, load_strategy}
use artic_trader.Strategies.Cache.{
  max_entries, move_to_end, evict, found, look_up, store, clear, cache_size,
}
use artic_trader.Strategies.Recency.{
  IsDistinct, move_to_end-IsDistinct, length-move_to_end, length-remove_found, length-evict,
  evict-IsDistinct, remove-put,
}
use artic_trader.Strategies.History.{IsHonest, move_to_end-IsHonest, get-evict}

module _ {E H : Type 0} (hash : String → String) (load : String → Result E H) where
  -- The caches that some interleaving of the parts of requests and of `clear` leads to. A store
  -- belongs to a request whose load has ended with that handle.
  pub data Reached : Dict H → Type 0 where
    imported : Reached []
    looked : {c : Dict H} (s : String) → Reached c → Reached (look_up (hash s) c).1
    stored :
        {c : Dict H} (s : String) (h : H) → load s ≡ ok h → Reached c → Reached (store (hash s) h c)
    cleared : {c : Dict H} → Reached c → Reached (clear c)

  pub record IsSound (c : Dict H) : Type 0 where
    pub distinct : IsDistinct c
    pub honest : IsHonest hash load c
    pub within : length c ≤ max_entries

module _ {E H : Type 0} (hash : String → String) (load : String → Result E H)
    (collision_free : (s t : String) → hash s ≡ hash t → s ≡ t) where
  found-IsSound :
      (c : Dict H) (s : String) (h : Option H)
      → get c (hash s) ≡ h
      → IsSound hash load c
      → IsSound hash load (found c (hash s) h).1
  found-IsSound c s none g t = t
  found-IsSound c s (some h) g t = record {
    distinct = move_to_end-IsDistinct c (hash s) h t.distinct;
    honest = move_to_end-IsHonest hash load collision_free c s h (t.honest s h g) t.honest;
    within =
        omega (arith, length-move_to_end c (hash s) h, length-remove_found c (hash s) g, t.within);
  }

  evict-IsSound : (c : Dict H) → IsDistinct c → IsHonest hash load c → IsSound hash load (evict c)
  evict-IsSound c d h = record {
    distinct = evict-IsDistinct c d;
    honest = λ s g e. h s g (get-evict c (hash s) d e);
    within = length-evict c;
  }

  store-IsSound :
      (c : Dict H) (s : String) (h : H)
      → load s ≡ ok h
      → IsSound hash load c
      → IsSound hash load (store (hash s) h c)
  unfolding store
  store-IsSound c s h l t = rw (remove-put c (hash s) h) (
      evict-IsSound (move_to_end c (hash s) h) (move_to_end-IsDistinct c (hash s) h t.distinct)
        (move_to_end-IsHonest hash load collision_free c s h l t.honest))

  empty-IsSound : IsSound hash load []
  unfolding get
  empty-IsSound = record { distinct = tt; honest = λ s h e. cc; within = omega arith }

  pub Reached-IsSound : (c : Dict H) → Reached hash load c → IsSound hash load c
  unfolding look_up clear
  Reached-IsSound c imported = empty-IsSound
  Reached-IsSound _ (looked {c} s r) = found-IsSound c s (get c (hash s)) refl (Reached-IsSound c r)
  Reached-IsSound _ (stored {c} s h l r) = store-IsSound c s h l (Reached-IsSound c r)
  Reached-IsSound _ (cleared {c} r) = empty-IsSound

-- If no two sources share a hash, then however the parts of requests from several threads follow one
-- another, the cache keeps at most 256 handles, and every handle in it under a source's hash is the
-- one that the loader gives for that source.
pub Reached-sound :
    {V A Code W : Type 0} (I : Interpreter V A Code W) (c : Dict (StrategyHandle V))
    → ((s t : String) → I.sha256 s ≡ I.sha256 t → s ≡ t)
    → Reached I.sha256 (load_strategy I) c
    → (cache_size c ≤ max_entries)
      × ((s : String) (h : StrategyHandle V)
          → get c (I.sha256 s) ≡ some h
          → load_strategy I s ≡ ok h)
unfolding cache_size
Reached-sound I c free r =
    let sound = Reached-IsSound I.sha256 (load_strategy I) free c r in (sound.within, sound.honest)
