-- ===== src/Strategies/Cache.antt =====
-- user-server/user_server/strategies/cache.py: the cache of loaded strategies. The lock is held over
-- each of its two parts, not over the load between them: each part is a step of its own.
use artic_trader.Prelude.{
  ℕ, String, Option, none, some, List, [], ◌∷◌, ◌++◌, length, ltb, if◌then◌else◌,
}
use artic_trader.Prelude.Exec.{Result, ok, err}
use artic_trader.Dict.{Dict, get, put, remove}

-- _MAX_ENTRIES
abbrev pub max_entries : ℕ
max_entries = 256

module _ {H : Type 0} where
  -- OrderedDict.move_to_end, of a key with its value
  abbrev pub move_to_end : Dict H → String → H → Dict H
  move_to_end c key handle = remove c key ++ (key, handle) ∷ []

  -- while len(_cache) > _MAX_ENTRIES: _cache.popitem(last=False)
  unfoldable pub evict : Dict H → Dict H
  evict [] = []
  evict (x ∷ c) = let rest = evict c in if ltb max_entries (length (x ∷ c)) then rest else x ∷ c

  abbrev pub found : Dict H → String → Option H → Option H × Dict H
  found c key none = (none, c)
  found c key (some handle) = (some handle, move_to_end c key handle)

  -- The first part: a hit moves the entry to the end.
  unfoldable pub look_up : String → Dict H → Option H × Dict H
  look_up key c = found c key (get c key)

  -- The second part.
  unfoldable pub store : String → H → Dict H → Dict H
  store key handle c = evict (move_to_end (put c key handle) key handle)

module _ {E H : Type 0} (hash : String → String) (load : String → Result E H) where
  abbrev pub loaded : String → Result E H → Dict H → Result E H × Dict H
  loaded key (ok handle) c = (ok handle, store key handle c)
  loaded key (err e) c = (err e, c)

  abbrev pub after_look_up : String → Option H × Dict H → Result E H × Dict H
  after_look_up source (some handle, c) = (ok handle, c)
  after_look_up source (none, c) = loaded (hash source) (load source) c

  unfoldable pub get_or_load : String → Dict H → Result E H × Dict H
  get_or_load source c = after_look_up source (look_up (hash source) c)

  -- Requests one after another: the results, and the cache after them.
  unfoldable pub requests : List String → Dict H → List (Result E H) × Dict H
  requests [] c = ([], c)
  requests (s ∷ ss) c =
      let (r, c') = get_or_load s c in let (rs, c'') = requests ss c' in (r ∷ rs, c'')

-- `clear` and `size`
unfoldable pub clear : {H : Type 0} → Dict H → Dict H
clear c = []

unfoldable pub cache_size : {H : Type 0} → Dict H → ℕ
cache_size c = length c
