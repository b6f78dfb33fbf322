-- ===== src/Protocol/Packets.antt =====
-- mysql/protocol.go: ReadPacket on what WritePacket wrote.
use xxldb.Base.{
  ℕ, zero, suc, ◌+◌, ◌%◌, ◌<◌, ◌≤◌, ◌≡◌, refl, ◌∙◌, arith, inl, inr, false, Bool-cases, List, [],
  ◌∷◌, ◌++◌, ltb, ◌==◌, if◌then◌else◌, length, length-append, length-take, length-drop,
  take-append-drop, take, drop, append_assoc, append-nil, Result, ok, ◌>>=◌,
}
use xxldb.Base.Input.{read_full, read_full-append, read_full_exact}
use xxldb.Base.Words.{le_bytes, le_value, length-le_bytes, le_value-le_bytes}
use xxldb.Protocol.{
  Error, PacketWriter, max_packet, packet_header, write_packet_internal, write_chunks, write_packet,
  eof, unexpected_eof, read_packet,
}

packet_body :
    (xs ys : List ℕ)
    → (if length xs == 0
        then ok ([], xs ++ ys)
        else read_full eof unexpected_eof (length xs) (xs ++ ys))
      ≡ ok (xs, ys)
packet_body [] ys = refl
packet_body (x ∷ xs) ys = ground (arith, read_full-append eof unexpected_eof (x ∷ xs) ys)

-- One packet, with anything behind it.
read_packet-header :
    (bs rest : List ℕ) (sequence : ℕ)
    → length bs ≤ max_packet
    → read_packet (packet_header (length bs) sequence ++ (bs ++ rest)) ≡ ok (bs, rest)
unfolding read_packet
read_packet-header bs rest sequence h =
    rw (read_full_exact eof unexpected_eof 4 header (bs ++ rest) four, size) (packet_body bs rest)
  where
    header : List ℕ
    header = packet_header (length bs) sequence

    four : ◌≡◌ {A = ℕ} 4 (length header)
    four = omega (
      arith,
      length-append (le_bytes 3 (length bs)) (sequence ∷ []),
      length-le_bytes 3 (length bs),
    )

    size : le_value 3 header ≡ length bs
    size = le_value-le_bytes 3 (length bs) (sequence ∷ []) (omega arith)

-- What a client does with `n` packets: their data, joined.
unfoldable pub read_packets : ℕ → List ℕ → Result Error (List ℕ × List ℕ)
read_packets zero src = ok ([], src)
read_packets (suc n) src = do
  (bs, rest) ← read_packet src
  (more, end) ← read_packets n rest
  ok (bs ++ more, end)

-- What a writer adds: `out` is read back by a client as `n` packets with the data `bs`.
record Adds (w v : PacketWriter) (bs : List ℕ) : Type 0 where
  out : List ℕ
  packets : ℕ
  written : v.written ≡ w.written ++ out
  sequence : v.sequence ≡ (w.sequence + packets) % 256
  reads : (rest : List ℕ) → read_packets packets (out ++ rest) ≡ ok (bs, rest)

write_packet_internal-Adds :
    (w : PacketWriter) (bs : List ℕ)
    → length bs ≤ max_packet
    → Adds w (write_packet_internal w bs) bs
unfolding write_packet_internal read_packets
write_packet_internal-Adds w bs h = record {
  out = packet_header (length bs) w.sequence ++ bs;
  packets = 1;
  written = refl;
  sequence = refl;
  reads = λ rest.
      rw
        (
          append_assoc (packet_header (length bs) w.sequence) bs rest,
          read_packet-header bs rest w.sequence h,
          append-nil bs,
        )
        refl;
}

-- One packet in front of those that follow.
Adds-trans :
    (w u v : PacketWriter) (xs ys : List ℕ)
    → length xs ≤ max_packet
    → u ≡ write_packet_internal w xs
    → Adds u v ys
    → Adds w v (xs ++ ys)
unfolding write_packet_internal read_packets
Adds-trans w u v xs ys h e a = record {
  out = first ++ a.out;
  packets = suc a.packets;
  written = a.written ∙ rw e (append_assoc w.written first a.out);
  sequence = a.sequence ∙ rw e (omega arith);
  reads = λ rest.
      rw
        (
          append_assoc first a.out rest,
          append_assoc (packet_header (length xs) w.sequence) xs (a.out ++ rest),
          read_packet-header xs (a.out ++ rest) w.sequence h,
          a.reads rest,
        )
        refl;
}
  where
    first : List ℕ
    first = packet_header (length xs) w.sequence ++ xs

write_packet_internal-sequence :
    (w : PacketWriter) (bs : List ℕ) → (write_packet_internal w bs).sequence < 256
unfolding write_packet_internal
write_packet_internal-sequence w bs = omega arith

nothing-Adds : (fuel : ℕ) (w : PacketWriter) → w.sequence < 256 → Adds w (write_chunks fuel w []) []
unfolding write_chunks read_packets
nothing-Adds zero w s = record {
  out = [];
  packets = 0;
  written = rw append-nil;
  sequence = omega arith;
  reads = λ rest. refl;
}
nothing-Adds (suc fuel) w s = record {
  out = [];
  packets = 0;
  written = rw append-nil;
  sequence = omega arith;
  reads = λ rest. refl;
}

write_chunks-Adds :
    (fuel : ℕ) (w : PacketWriter) (bs : List ℕ)
    → length bs ≤ fuel
    → w.sequence < 256
    → Adds w (write_chunks fuel w bs) bs
unfolding write_chunks
write_chunks-Adds fuel w [] h s = nothing-Adds fuel w s
write_chunks-Adds zero w (b ∷ bs) h s = absurd (omega arith)
write_chunks-Adds (suc fuel) w (b ∷ bs) h s = rw (← take-append-drop max_packet (b ∷ bs)) (
    Adds-trans w (write_packet_internal w chunk) _ chunk rest
      (omega (arith, length-take max_packet (b ∷ bs))) refl
      (write_chunks-Adds fuel (write_packet_internal w chunk) rest
        (omega (arith, length-drop max_packet (b ∷ bs))) (write_packet_internal-sequence w chunk)))
  where
    chunk : List ℕ
    chunk = take max_packet (b ∷ bs)

    rest : List ℕ
    rest = drop max_packet (b ∷ bs)

write_packet-Adds :
    (w : PacketWriter) (bs : List ℕ) → w.sequence < 256 → Adds w (write_packet w bs) bs
unfolding write_packet
write_packet-Adds w bs s = elim (Bool-cases (ltb max_packet (length bs))) [
  | inl large ↦ rw large (write_chunks-Adds (length bs) w bs (omega arith) s)
  | inr small ↦ rw small (write_packet_internal-Adds w bs (ground arith))
]

-- WritePacket keeps what was written before and adds some packets, whatever the size of the data:
-- a client that reads as many packets gets the data, joined, and the input behind them, and the
-- sequence number has gone on by their number, modulo 256.
pub read_packets-write_packet :
    (w : PacketWriter) (bs : List ℕ)
    → w.sequence < 256
    → (out : List ℕ) × (n : ℕ) × ((write_packet w bs).written ≡ w.written ++ out)
      × ((write_packet w bs).sequence ≡ (w.sequence + n) % 256)
      × ((rest : List ℕ) → read_packets n (out ++ rest) ≡ ok (bs, rest))
read_packets-write_packet w bs s =
    let a = write_packet-Adds w bs s in (a.out, a.packets, a.written, a.sequence, a.reads)

-- Data of at most 2 ^ 24 - 1 bytes is one packet, which ReadPacket takes apart again.
pub read_packet-write_packet :
    (w : PacketWriter) (bs rest : List ℕ)
    → length bs ≤ max_packet
    → (out : List ℕ) × ((write_packet w bs).written ≡ w.written ++ out)
      × (read_packet (out ++ rest) ≡ ok (bs, rest))
unfolding write_packet write_packet_internal
read_packet-write_packet w bs rest h = (
  packet_header (length bs) w.sequence ++ bs,
  rw small,
  rw append_assoc (read_packet-header bs rest w.sequence h),
)
  where
    small : ltb max_packet (length bs) ≡ false
    small = ground arith
