-- ===== src/Message.antt =====
-- include/fsnet/entity_message.hpp: the names of entity methods, the frames of entity calls and the
-- envelopes of messages and states.
pub mod Call
pub mod CallRoundTrip
pub mod Envelope
pub mod Parse
pub mod EnvelopeRoundTrip
mod Tests
use fsnet.Base.{
  Bytes, Bool, not, ◌&&◌, ◌||◌, is_empty, leb, length, contains_byte, ◌==◌, [], ◌∷◌, false, ℕ,
}

-- `text.find_first_of(".\0", 0, 2) != npos`
unfoldable pub has_separator : Bytes → Bool
unfolding contains_byte
has_separator text = contains_byte b'.' text || contains_byte 0 text

-- `text.front() == byte`, where the text is known not to be empty
abbrev pub front_is : ℕ → Bytes → Bool
front_is c [] = false
front_is c (x ∷ text) = x == c

unfoldable pub valid_entity_method : Bytes → Bool
unfolding has_separator
valid_entity_method method =
    not (is_empty method)
    && leb (length method) 127
    && not (front_is b'$' method)
    && not (has_separator method)
