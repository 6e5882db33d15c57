-- ===== src/Dht/Records.antt =====
-- What the records of the DHT are read as.
use petals_ai_refactor.Prelude.{
  ◌==◌, if◌then◌else◌, All, ℕ, ◌≡◌, refl, ap, ◌∙◌, ◌≢◌, Option, none, some, List, [], ◌∷◌, ◌++◌,
  arith,
}
use petals_ai_refactor.Data.{
  PeerId, ModuleUid, ServerState, offline, joining, online, ServerInfo, RemoteModuleInfo,
}
use petals_ai_refactor.Dht.{
  int_state, finite, Entry, pair, Metadata, peers, state_of, value_of, declared_value, parse_entry,
  put_server, put_valid, read_peers,
}
use petals_ai_refactor.Routing.Spans.{lookup}

pub parse_entry-declared_value :
    {F : Type 0} (s : ServerState) (throughput : F)
    → parse_entry (declared_value s throughput)
      ≡ some (record { state = s; throughput = throughput })
unfolding parse_entry declared_value value_of state_of
parse_entry-declared_value offline throughput = refl
parse_entry-declared_value joining throughput = refl
parse_entry-declared_value online throughput = refl

-- The number of a state in the DHT.
abbrev pub number : ServerState → ℕ
number offline = 0
number joining = 1
number online = 2

module _ {F : Type 0} where
  -- A valid entry: the number of a state, and a finite throughput that is not negative.
  abbrev pub valid_entry : ServerInfo F → Entry F
  valid_entry s = pair (int_state (number s.state)) (finite s.throughput)

  abbrev pub or_else : Option (ServerInfo F) → Option (ServerInfo F) → Option (ServerInfo F)
  or_else none other = other
  or_else (some server) other = some server

  lookup-put_server :
      (p q : PeerId) (server : ServerInfo F) (servers : List (PeerId × ServerInfo F))
      → lookup p (put_server q server servers) ≡ (if q == p then some server else lookup p servers)
  unfolding put_server
  lookup-put_server p q server [] = refl
  lookup-put_server p q server ((r, other) ∷ servers) =
      ground (arith, lookup-put_server p q server servers)

  module _ {K : Type 0} (from_base58 : K → Option PeerId) where
    -- The entry of a peer under a key, if the key is the peer's and the entry is valid.
    abbrev pub entry_of : PeerId → Option PeerId → Option (ServerInfo F) → Option (ServerInfo F)
    entry_of p none server = none
    entry_of p (some q) server = if q == p then server else none

    -- The last valid entry of a peer.
    abbrev pub last_valid : PeerId → List (K × Entry F) → Option (ServerInfo F)
    last_valid p [] = none
    last_valid p ((key, entry) ∷ entries) =
        or_else (last_valid p entries) (entry_of p (from_base58 key) (parse_entry entry))

    abbrev pub entries_of : Metadata K F → List (K × Entry F)
    entries_of (peers entries) = entries
    entries_of _ = []

    -- No entry under a key of the peer is valid.
    abbrev pub HasNone : PeerId → List (K × Entry F) → Type 0
    HasNone p entries =
        All
          (λ (x : K × Entry F). from_base58 x.0 ≡ some p → (s : ServerInfo F) → x.1 ≢ valid_entry s)
          entries

    -- The server is what the last valid entry under a key of the peer tells, and there is none
    -- exactly if no entry is valid.
    abbrev pub IsListed : PeerId → List (K × Entry F) → Option (ServerInfo F) → Type 0
    IsListed p entries none = HasNone p entries
    IsListed p entries (some s) =
        (front : List (K × Entry F)) × (key : K) × (back : List (K × Entry F)) × (entries
          ≡ front ++ (key, valid_entry s) ∷ back)
        × (from_base58 key ≡ some p)
        × HasNone p back

    lookup-put_valid :
        (p : PeerId) (key : Option PeerId) (server : Option (ServerInfo F))
        (servers : List (PeerId × ServerInfo F))
        → lookup p (put_valid key server servers)
          ≡ or_else (entry_of p key server) (lookup p servers)
    lookup-put_valid p none none servers = refl
    lookup-put_valid p none (some server) servers = refl
    lookup-put_valid p (some q) none servers = ground arith
    lookup-put_valid p (some q) (some server) servers =
        ground (arith, lookup-put_server p q server servers)

    or_else_assoc :
        (a b c : Option (ServerInfo F)) → or_else a (or_else b c) ≡ or_else (or_else a b) c
    or_else_assoc none b c = refl
    or_else_assoc (some server) b c = refl

    lookup-read_peers :
        (p : PeerId) (entries : List (K × Entry F)) (servers : List (PeerId × ServerInfo F))
        → lookup p (read_peers from_base58 entries servers)
          ≡ or_else (last_valid p entries) (lookup p servers)
    unfolding read_peers
    lookup-read_peers p [] servers = refl
    lookup-read_peers p ((key, entry) ∷ entries) servers =
        lookup-read_peers p entries (put_valid (from_base58 key) (parse_entry entry) servers)
        ∙ ap (or_else (last_valid p entries))
            (lookup-put_valid p (from_base58 key) (parse_entry entry) servers)
        ∙ or_else_assoc (last_valid p entries) (entry_of p (from_base58 key) (parse_entry entry))
            (lookup p servers)

    or_else-none : (a : Option (ServerInfo F)) → or_else a none ≡ a
    or_else-none none = refl
    or_else-none (some server) = refl

    -- A record of the module, or none if no peer has a valid entry.
    abbrev pub IsRead : ModuleUid → Metadata K F → Option (RemoteModuleInfo F) → Type 0
    IsRead uid m none = (p : PeerId) → HasNone p (entries_of m)
    IsRead uid m (some info) =
        (info.uid ≡ uid) × ((p : PeerId) → IsListed p (entries_of m) (lookup p info.servers))

    abbrev pub AreRead :
        (ModuleUid → Metadata K F) → List ModuleUid → List (Option (RemoteModuleInfo F)) → Type 0
    AreRead found [] [] = Unit
    AreRead found (uid ∷ uids) (info ∷ infos) =
        IsRead uid (found uid) info × AreRead found uids infos
    AreRead found _ _ = ⊥

    -- What a peer declares for a module, other peers read: if its value stands under its key, and no
    -- later key of that peer has a valid entry, then the servers read have the peer with the state
    -- and the throughput that it declared.
    pub read_peers-declared_value :
        (p : PeerId) (key : K) (s : ServerState) (throughput : F)
        (before after : List (K × Entry F))
        → from_base58 key ≡ some p
        → last_valid p after ≡ none
        → lookup p
            (read_peers from_base58 (before ++ (key, declared_value s throughput) ∷ after) [])
          ≡ some (record { state = s; throughput = throughput })
    read_peers-declared_value p key s throughput before after own later =
        lookup-read_peers p (before ++ (key, declared_value s throughput) ∷ after) []
        ∙ or_else-none (last_valid p (before ++ (key, declared_value s throughput) ∷ after))
        ∙ found before
      where
        found :
            (front : List (K × Entry F))
            → last_valid p (front ++ (key, declared_value s throughput) ∷ after)
              ≡ some (record { state = s; throughput = throughput })
        found [] = rw later (rw own (rw (parse_entry-declared_value s throughput) (ground arith)))
        found (x ∷ front) = rw (found front) refl
