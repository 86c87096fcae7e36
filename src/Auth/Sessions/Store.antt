-- ===== src/Auth/Sessions/Store.antt =====
-- What app/auth/sessions.py relies on of Redis: the keys it uses, the commands that write them, and
-- how each write shows in a later read.
use practice_match.Prelude.{
  ℕ, ◌+◌, ◌*◌, leb, ltb, ◌&&◌, true, String, ◌≡◌, Bool, false, Option, none, some, List, str_eq,
}
use practice_match.Auth.Permissions.{Role}

-- The JSON body of `session:{h}`.
pub record Cached : Type 0 where
  pub a : String
  pub s : String
  pub r : List Role
  pub re : Option ℕ

-- `account:{id}:invalidated` and `session:{h}:revoked`.
pub data Tombstone : Type 0 where
  of_account of_session : String → Tombstone

pub data Command : Type 0 where
  -- with `ex`, the seconds to live
  set_principal : String → Cached → ℕ → Command
  del_principal : String → Command
  set_stamp : Tombstone → ℕ → ℕ → Command
  sadd srem : String → String → Command
  expire_index del_index : String → Command

abbrev pub tombstone_eq : Tombstone → Tombstone → Bool
tombstone_eq (of_account a) (of_account b) = str_eq a b
tombstone_eq (of_session a) (of_session b) = str_eq a b
tombstone_eq _ _ = false

-- Whether a command writes the key `session:{h}`.
abbrev pub writes_principal : String → Command → Bool
writes_principal h (set_principal k c ex) = str_eq k h
writes_principal h (del_principal k) = str_eq k h
writes_principal h _ = false

-- Whether it writes the tombstone.
abbrev pub writes_stamp : Tombstone → Command → Bool
writes_stamp t (set_stamp u n ex) = tombstone_eq u t
writes_stamp t _ = false

-- CACHE_TTL
abbrev pub cache_ttl : ℕ
cache_ttl = 60

-- The instants, in microseconds, at which a key lives that was written at `now`.
abbrev pub lives : ℕ → ℕ → ℕ → Bool
lives now ex at = leb now at && ltb at (now + ex * 1_000_000)

-- `exec now` is a command at that instant of Redis's clock, `stamp t at` a read at that one. Of a
-- principal's key the laws say nothing once it has been set: it may have lapsed.
pub record Redis : Type 1 where
  pub Store : Type 0
  pub principal : String → Store → Option Cached
  pub stamp : Tombstone → ℕ → Store → Option ℕ
  pub members : String → Store → List String
  pub exec : ℕ → Command → Store → Store
  pub principal-del :
      (h : String) (now : ℕ) (s : Store) → principal h (exec now (del_principal h) s) ≡ none
  pub principal-other :
      (h : String) (c : Command) (now : ℕ) (s : Store)
      → writes_principal h c ≡ false
      → principal h (exec now c s) ≡ principal h s
  pub stamp-set :
      (t : Tombstone) (n ex now at : ℕ) (s : Store)
      → lives now ex at ≡ true
      → stamp t at (exec now (set_stamp t n ex) s) ≡ some n
  pub stamp-other :
      (t : Tombstone) (c : Command) (now at : ℕ) (s : Store)
      → writes_stamp t c ≡ false
      → stamp t at (exec now c s) ≡ stamp t at s
