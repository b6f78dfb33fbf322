-- ===== src/Protocol.antt =====
-- mysql/protocol.go: packets, length-encoded integers and strings, decimal numbers, and the packets
-- that the server writes. The writer below a PacketWriter does not fail here.
pub mod Packets
pub mod Lengths
pub mod Decimal
pub mod Rows
mod Runs
use xxldb.Base.{
  ℕ, zero, suc, ◌+◌, ◌-◌, ◌*◌, ◌/◌, ◌%◌, ◌^◌, Bool, true, false, not, ◌&&◌, ◌||◌, Option, none,
  some, List, [], ◌∷◌, ◌++◌, ltb, leb, ◌==◌, if◌then◌else◌, length, get_or, take, drop, replicate,
  Result, ok, err, panic, ◌>>=◌, ◌>>◌, refuse,
}
use xxldb.Base.Input.{read_full}
use xxldb.Base.Words.{le_bytes, le_value}

pub data Error : Type 0 where
  eof unexpected_eof : Error

-- The bytes written so far, and the sequence number of the next packet.
pub record PacketWriter : Type 0 where
  pub written : List ℕ
  pub sequence : ℕ

pub new_packet_writer : PacketWriter
new_packet_writer = record { written = []; sequence = 0 }

pub reset_sequence : PacketWriter → PacketWriter
reset_sequence w = record w { sequence = 0 }

abbrev pub max_packet : ℕ
max_packet = 0xffffff

-- The three bytes of the length, and the sequence number.
abbrev pub packet_header : ℕ → ℕ → List ℕ
packet_header n sequence = le_bytes 3 n ++ (sequence ∷ [])

pub write_packet_internal : PacketWriter → List ℕ → PacketWriter
write_packet_internal w bs = record {
  written = w.written ++ (packet_header (length bs) w.sequence ++ bs);
  sequence = (w.sequence + 1) % 256;
}

-- The loop over a large packet. Every round takes a byte at least.
pub write_chunks : ℕ → PacketWriter → List ℕ → PacketWriter
write_chunks zero w bs = w
write_chunks (suc fuel) w [] = w
write_chunks (suc fuel) w (b ∷ bs) =
    write_chunks fuel (write_packet_internal w (take max_packet (b ∷ bs)))
      (drop max_packet (b ∷ bs))

pub write_packet : PacketWriter → List ℕ → PacketWriter
unfolding write_chunks
write_packet w bs =
    if ltb max_packet (length bs) then write_chunks (length bs) w bs else write_packet_internal w bs

-- The packet's data, and the rest of the input. The sequence number is not looked at. The bytes of
-- the length are shifted apart, so their bitwise or is a sum.
pub read_packet : List ℕ → Result Error (List ℕ × List ℕ)
read_packet src = do
  (header, rest) ← read_full eof unexpected_eof 4 src
  if le_value 3 header == 0
      then ok ([], rest)
      else read_full eof unexpected_eof (le_value 3 header) rest

pub write_length_encoded_int : ℕ → List ℕ
write_length_encoded_int n =
    if leb n 250
    then (n % 256) ∷ []
    else if leb n 0xffff
    then 0xfc ∷ le_bytes 2 n
    else if leb n 0xffffff
    then 0xfd ∷ le_bytes 3 n
    else 0xfe ∷ le_bytes 8 n

pub write_length_encoded_string : List ℕ → List ℕ
write_length_encoded_string s = write_length_encoded_int (length s) ++ s

-- The number, and how many bytes it took.
pub read_length_encoded_int : List ℕ → Result Error (ℕ × ℕ)
read_length_encoded_int bs =
    let first = get_or bs 0 0 in
    do
      refuse (length bs == 0) eof
      if first == 0xfb
          then ok (0, 1)
          else if first == 0xfc
          then (refuse (ltb (length bs) 3) eof >> ok (le_value 2 (drop 1 bs), 3))
          else if first == 0xfd
          then (refuse (ltb (length bs) 4) eof >> ok (le_value 3 (drop 1 bs), 4))
          else if first == 0xfe
          then (refuse (ltb (length bs) 9) eof >> ok (le_value 8 (drop 1 bs), 9))
          else ok (first, 1)

-- `n + int(length)` in 64 bits, as a bit pattern: from 2 ^ 63 on it stands for a negative number.
abbrev pub total_length : ℕ → ℕ → ℕ
total_length n len = (n + len) % 2 ^ 64

abbrev pub is_negative : ℕ → Bool
is_negative w = leb (2 ^ 63) w

pub read_length_encoded_string : List ℕ → Result Error (List ℕ × ℕ)
read_length_encoded_string bs = do
  (len, n) ← read_length_encoded_int bs
  refuse (not (is_negative (total_length n len)) && ltb (length bs) (total_length n len)) eof
  if is_negative (total_length n len) || ltb (total_length n len) n
      then panic
      else ok (take (total_length n len - n) (drop n bs), total_length n len)

-- `for tmp > 0 { digits++; tmp /= 10 }`, with fuel.
pub count_digits : ℕ → ℕ → ℕ
count_digits zero n = 0
count_digits (suc fuel) n = let more = count_digits fuel (n / 10) in if n == 0 then 0 else suc more

-- The loop that fills `places` bytes from the right; a place that it does not reach stays 0.
pub fill_digits : ℕ → ℕ → List ℕ → List ℕ
fill_digits zero n done = done
fill_digits (suc places) n done =
    let more = fill_digits places (n / 10) ((b'0' + n % 10) ∷ done) in
    if n == 0 then replicate (suc places) 0 ++ done else more

-- Twenty decimal digits are enough for 64 bits.
abbrev pub max_digits : ℕ
max_digits = 20

pub uint64_to_string : ℕ → List ℕ
uint64_to_string n = if n == 0 then b'0' ∷ [] else fill_digits (count_digits max_digits n) n []

-- "-9223372036854775808"
abbrev pub min_int64_string : List ℕ
min_int64_string =
    b'-' ∷ b'9' ∷ b'2' ∷ b'2' ∷ b'3' ∷ b'3' ∷ b'7' ∷ b'2' ∷ b'0' ∷ b'3' ∷ b'6' ∷ b'8' ∷ b'5' ∷ b'4'
    ∷ b'7' ∷ b'7' ∷ b'5' ∷ b'8' ∷ b'0' ∷ b'8' ∷ []

-- The argument is the bit pattern of an int64.
pub int64_to_string : ℕ → List ℕ
int64_to_string w =
    if w == 0
    then b'0' ∷ []
    else if w == 2 ^ 63
    then min_int64_string
    else if is_negative w
    then b'-' ∷ fill_digits (count_digits max_digits (2 ^ 64 - w)) (2 ^ 64 - w) []
    else fill_digits (count_digits max_digits w) w []
