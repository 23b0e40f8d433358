-- ===== src/Proxy/Switchboard/Entries.antt =====
-- The entries of the board, and what a claim makes of them.
use libunftp.Prelude.{
  ℕ, ◌≡◌, refl, ap, Bool, false, not, ◌&&◌, Option, none, some, if◌then◌else◌, arith,
}
use libunftp.Std.HashMap
use libunftp.Std.HashMap.{get}
use libunftp.Proxy.{hash_key, ProxyConnection, ProxyHashKey, key_eq, key_eq_iff}
use libunftp.Proxy.Switchboard.{
  session_of, get_session_by_incoming_data_connection, Board, unregister_hash, unregister_stale,
}
use libunftp.Server.Options.{PortRange}

-- The entry of a key of the board.
abbrev pub entry : ProxyHashKey → Board → Option (Option ℕ)
entry key board = get key_eq key board

-- The key is the one that the session gives up for a new one.
abbrev pub stale : ProxyHashKey → Option ProxyHashKey → ProxyHashKey → Bool
stale hash none key = false
stale hash (some active) key = not (key_eq active hash) && key_eq active key

pub entry-remove :
    (k j : ProxyHashKey) (board : Board)
    → entry j (HashMap.remove key_eq k board) ≡ (if key_eq k j then none else entry j board)
entry-remove k j board = HashMap.get-remove key_eq key_eq_iff k j board

pub entry-insert :
    (k j : ProxyHashKey) (v : Option ℕ) (board : Board)
    → entry j (HashMap.insert key_eq k v board) ≡ (if key_eq k j then some v else entry j board)
entry-insert k j v board = HashMap.get-insert key_eq key_eq_iff k j v board

session_of-some : (o : Option (Option ℕ)) (id : ℕ) → session_of o ≡ some id → o ≡ some (some id)
unfolding session_of
session_of-some none id e = ground arith
session_of-some (some session) id e = ap some e

pub entry_of_session :
    (c : ProxyConnection) (board : Board) (id : ℕ)
    → get_session_by_incoming_data_connection c board ≡ some id
    → entry (hash_key c) board ≡ some (some id)
unfolding get_session_by_incoming_data_connection
entry_of_session c board id e = session_of-some _ id e

pub entry-unregister :
    (range : PortRange) (hash key : ProxyHashKey) (active : Option ProxyHashKey) (board : Board)
    → entry key (unregister_stale range hash active board)
      ≡ (if stale hash active key then none else entry key board)
unfolding unregister_stale unregister_hash
entry-unregister range hash key none board = refl
entry-unregister range hash key (some a) board = ground (arith, entry-remove a key board)

-- The entry after a claim: the new key holds the session, the given up one nothing.
abbrev pub after_claim :
    ℕ → ProxyHashKey → Option ProxyHashKey → Board → ProxyHashKey → Option (Option ℕ)
after_claim id hash active board key =
    if stale hash active key
    then none
    else if key_eq hash key
    then some (some id)
    else entry key board
