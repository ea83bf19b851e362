-- ===== src/Directory/Tests.antt =====
-- The directory at concrete inputs.
use fsnet.Base.{◌≡◌, refl, [], ◌∷◌, ok, codes, some, none, List}
use fsnet.Base.Int.{pos}
use fsnet.Base.Maps.{Map, find, insert_or_assign}
use fsnet.Base.Texts.{text_eq, text_lt}
use fsnet.Directory.{Entry, entries_of, renew, renew_entry, remove, erase_peer, locate, select}
use fsnet.Directory.Locate.{Chosen, locate-Chosen}

abbrev leases : Map (List Entry)
leases =
    (codes "chat", record { peer = 7; expires = 20 } ∷ record { peer = 9; expires = 15 } ∷ []) ∷ []

renewed :
    renew (codes "chat") 9 (pos 5) 10 ((codes "chat", record { peer = 7; expires = 20 } ∷ []) ∷ [])
    ≡ ok leases
unfolding renew renew_entry find insert_or_assign text_eq text_lt
renewed = refl

removed : remove 7 leases ≡ (codes "chat", record { peer = 9; expires = 15 } ∷ []) ∷ []
unfolding remove erase_peer
removed = refl

-- Once the lease of peer 9 has expired, only peer 7 is left.
located : locate (codes "chat") (codes "room") 16 leases ≡ some 7
unfolding locate select find text_eq
located = refl

located_none : locate (codes "mail") (codes "room") 16 leases ≡ none
unfolding locate select find text_eq
located_none = refl

locate-Chosen_example :
    Chosen
      (codes "room")
      16
      (entries_of (find (codes "chat") leases))
      (locate (codes "chat") (codes "room") 16 leases)
locate-Chosen_example = locate-Chosen (codes "chat") (codes "room") 16 leases
