-- ===== src/Message/Tests.antt =====
-- A short name and buffers of junk, on which the theorems of this component are applied.
use tazer.Base.{
  refl, ℕ, ◌+◌, ◌*◌, ◌<◌, ◌≡◌, true, false, List, [], ◌∷◌, arith, ◌==◌, none, some, ◌++◌, drop,
  take, take-append, drop-append, ap, length, Bool,
}
use tazer.Message.Bytes.{Buffer, get32, put_bytes}
use tazer.Message.Layout.{u32, check_msg}
use tazer.Message.Build.{
  build_close_file, build_request_file_size, Packet, build_open_file, build_write, build_send_blk,
}
use tazer.Message.Parse.{parse_name, parse_open_file, parse_write}
use tazer.Message.RoundTrip.{IsName, parse-open_file}
use tazer.Message.Transfer.{
  Chunk, Connection, SentBlock, block_packet, server_send_close_new, rec_send_blk, or_fresh,
}
use tazer.Message.Pipe.{IsPipe, block_transfer}
use tazer.Message.Names.{parse_name-built}
use tazer.Message.Blocks.{parse-write, check-send_blk}

abbrev junk : Buffer
junk _ = 7

abbrev short_name : List ℕ
short_name = 97 ∷ 98 ∷ 99 ∷ []

short-IsName : IsName short_name
short-IsName = record {
  bytes = (
    λ e. absurd (omega (arith, e)),
    (λ e. absurd (omega (arith, e)), (λ e. absurd (omega (arith, e)), tt)),
  );
  short = omega arith;
}

parse-open_file_example :
    (let p : Packet = build_open_file junk short_name 4096 true false in
      (check_msg p.buff p.size ≡ true)
      × (parse_open_file p.buff p.size
          ≡ record { name = short_name; blk_size = 4096; compress = true; output = false }))
parse-open_file_example = parse-open_file junk short_name 4096 true false short-IsName (omega arith)

parse-write_example :
    (let p : Packet = build_write junk short_name 100 60 5000000000 4 in
      (check_msg p.buff p.size ≡ true)
      × (parse_write p.buff p.size ≡ record {
        name = short_name;
        data_at = 44;
        data_size = 100;
        comp_size = 60;
        fp = 5000000000;
      }))
parse-write_example =
    parse-write junk short_name 100 60 5000000000 4 short-IsName (omega arith) (omega arith)
      (omega arith)

junk_small : get32 junk 28 < u32
unfolding get32
junk_small = let h : 7 + 256 * 7 + 65536 * 7 + 16777216 * 7 < u32 = omega arith in h

check-send_blk_example :
    (let p : Packet = build_send_blk junk short_name 2 (10 ∷ 20 ∷ []) in
      check_msg p.buff p.size ≡ (get32 junk 28 == 2))
check-send_blk_example = check-send_blk junk short_name 2 (10 ∷ 20 ∷ []) (omega arith) junk_small

-- A connection that is one queue of bytes, and that never fails.
abbrev pipe : Connection (List ℕ)
pipe = record {
  send_msg = λ s xs. (s ++ xs, some (length xs));
  recv_msg = λ s n. (drop n s, record { bytes = take n s; failed = false });
  restart_socket = λ s. (s, true);
  close_socket = λ s. s;
}

chunk-eq :
    (xs ys : List ℕ)
    → xs ≡ ys
    → ◌≡◌ {A = Chunk}
        (record { bytes = xs; failed = false })
        (record { bytes = ys; failed = false })
chunk-eq xs ys e = ap (λ b. let c : Chunk = record { bytes = b; failed = false } in c) e

pipe-IsPipe : IsPipe pipe (λ s. s)
pipe-IsPipe = record {
  source = record {
    receives = λ s xs rest e. chunk-eq _ _ (rw e (take-append xs rest));
    dequeues = λ s xs rest e. rw e (drop-append xs rest);
  };
  sends = λ s xs. refl;
  enqueues = λ s xs. refl;
}

abbrev two_bytes : List ℕ
two_bytes = 10 ∷ 20 ∷ []

block_transfer_example :
    (let a : List ℕ × Bool =
        server_send_close_new pipe [] (block_packet junk short_name 1 6 2) short_name two_bytes in
      let r : List ℕ × SentBlock = rec_send_blk pipe 1 junk a.0 none 16 in
      (a.1 ≡ true)
      × (r.1 ≡ record {
        file_name = short_name ++ 0 ∷ [];
        blk = 6;
        data_size = 2;
        bytes = some (put_bytes (or_fresh junk none) 0 two_bytes);
      })
      × (r.0 ≡ []))
block_transfer_example =
    block_transfer pipe (λ s. s) 1 1 6 16 short_name two_bytes junk junk none [] pipe-IsPipe refl
      (omega arith) (omega arith) (omega arith) (omega arith)

parse_name-built_example :
    (let c : Packet = build_close_file junk short_name in
      let r : Packet = build_request_file_size junk short_name in
      (check_msg c.buff c.size ≡ true)
      × (parse_name c.buff c.size ≡ short_name)
      × (check_msg r.buff r.size ≡ true)
      × (parse_name r.buff r.size ≡ short_name))
parse_name-built_example = parse_name-built junk short_name short-IsName
