-- ===== src/Message/Kind.antt =====
-- `Message::Type` with `try_from` and `type_to_string`.
use picotor.Base.{
  ℕ, ◌≡◌, ◌↔◌, refl, sym, ap, ◌∙◌, ◌||◌, Option, none, some, arith, Bytes, codes, leb, ◌==◌,
  if◌then◌else◌,
}

pub data MessageType : Type 0 where
  choke unchoke interested not_interested have bitfield request piece cancel extension : MessageType

-- The values of the enumeration.
abbrev pub code_of : MessageType → ℕ
code_of choke = 0
code_of unchoke = 1
code_of interested = 2
code_of not_interested = 3
code_of have = 4
code_of bitfield = 5
code_of request = 6
code_of piece = 7
code_of cancel = 8
code_of extension = 20

-- `static_cast<Message::Type>` of a value that the enumeration has.
abbrev static_cast : ℕ → MessageType
static_cast src =
    if src == 0
    then choke
    else if src == 1
    then unchoke
    else if src == 2
    then interested
    else if src == 3
    then not_interested
    else if src == 4
    then have
    else if src == 5
    then bitfield
    else if src == 6
    then request
    else if src == 7
    then piece
    else if src == 8
    then cancel
    else extension

unfoldable pub try_from : ℕ → Option MessageType
try_from src =
    if leb src (code_of cancel) || src == code_of extension then some (static_cast src) else none

unfoldable pub type_to_string : MessageType → Bytes
type_to_string choke = codes "Choke"
type_to_string unchoke = codes "Unchoke"
type_to_string interested = codes "Interested"
type_to_string not_interested = codes "NotInterested"
type_to_string have = codes "Have"
type_to_string bitfield = codes "BitField"
type_to_string request = codes "Request"
type_to_string piece = codes "Piece"
type_to_string cancel = codes "Cancel"
type_to_string extension = codes "Extension"

pub try_from-code_of : (t : MessageType) → try_from (code_of t) ≡ some t
unfolding try_from
try_from-code_of choke = refl
try_from-code_of unchoke = refl
try_from-code_of interested = refl
try_from-code_of not_interested = refl
try_from-code_of have = refl
try_from-code_of bitfield = refl
try_from-code_of request = refl
try_from-code_of piece = refl
try_from-code_of cancel = refl
try_from-code_of extension = refl

try_from_sound : (src : ℕ) (t : MessageType) → try_from src ≡ some t → code_of t ≡ src
unfolding try_from
try_from_sound src t h = ground arith

-- A byte is taken for a message type exactly when it is the value of that type.
pub try_from_iff : (src : ℕ) (t : MessageType) → (try_from src ≡ some t) ↔ (src ≡ code_of t)
try_from_iff src t = (λ e. sym (try_from_sound src t e), λ e. ap try_from e ∙ try_from-code_of t)
