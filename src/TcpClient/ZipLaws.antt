-- ===== src/TcpClient/ZipLaws.antt =====
-- What `receive_zip` writes.
use shelter_server_hpc.Prelude.{
  ℕ, ◌+◌, ◌<◌, ◌≤◌, ◌≡◌, refl, sym, ap, ◌∙◌, arith, ℤ, pos, leb_ℤ, true, false, List, [], ◌∷◌, ◌++◌,
  Bytes, length, length-append, append_assoc, append-nil, map,
}
use shelter_server_hpc.TcpClient.Session.{
  Recv, recv_closed, recv_bytes, Client, returns, wrote, says,
}
use shelter_server_hpc.TcpClient.Zip.{receive_zip_loop, receive_zip, complete, closed}

-- All chunks, one after the other.
abbrev pub concat : List Bytes → Bytes
concat [] = []
concat (bs ∷ rest) = bs ++ concat rest

length-append_bytes : (a b : Bytes) → length (a ++ b) ≡ length a + length b
length-append_bytes = length-append

-- A chunk that does not reach the size is written, and the loop goes on.
receive_zip_loop-bytes :
    (size total : ℕ) (written bs : Bytes) (rest : List Recv)
    → total + length bs < size
    → receive_zip_loop (pos size) total written (recv_bytes bs ∷ rest)
      ≡ receive_zip_loop (pos size) (total + length bs) (written ++ bs) rest
unfolding receive_zip_loop
receive_zip_loop-bytes size total written bs rest h = rw (gtb_lem size (total + length bs) h)
  where
    gtb_lem : (a b : ℕ) → b < a → leb_ℤ (pos a) (pos b) ≡ false
    gtb_lem a b h = ground arith

receive_zip_loop-last :
    (size total : ℕ) (written bs : Bytes) (rest : List Recv)
    → size ≤ total + length bs
    → receive_zip_loop (pos size) total written (recv_bytes bs ∷ rest)
      ≡ (written ++ bs, complete, rest)
unfolding receive_zip_loop
receive_zip_loop-last size total written bs rest h = rw (leb_lem size (total + length bs) h)
  where
    leb_lem : (a b : ℕ) → a ≤ b → leb_ℤ (pos a) (pos b) ≡ true
    leb_lem a b h = ground arith

receive_zip_loop-closed :
    (size : ℤ) (total : ℕ) (written : Bytes) (rest : List Recv)
    → receive_zip_loop size total written (recv_closed ∷ rest) ≡ (written, closed, rest)
unfolding receive_zip_loop
receive_zip_loop-closed size total written rest = refl

-- Chunks that stay below the size are all written, and the loop goes on.
receive_zip_loop-below :
    (size total : ℕ) (written : Bytes) (chunks : List Bytes) (rest : List Recv)
    → total + length (concat chunks) < size
    → (more : ℕ) × (more ≡ total + length (concat chunks))
      × (receive_zip_loop (pos size) total written (map recv_bytes chunks ++ rest)
          ≡ receive_zip_loop (pos size) more (written ++ concat chunks) rest)
receive_zip_loop-below size total written [] rest h = (
  total,
  omega arith,
  ap (λ w. receive_zip_loop (pos size) total w rest) (sym (append-nil written)),
)
receive_zip_loop-below size total written (bs ∷ chunks) rest h =
    let sum = length-append_bytes bs (concat chunks) in
    let (more, e, step) =
      receive_zip_loop-below size (total + length bs) (written ++ bs) chunks rest
        (omega (arith, sum)) in
    (
      more,
      omega (arith, sum),
      receive_zip_loop-bytes size total written bs _ (omega (arith, sum))
          ∙ step
          ∙ ap (λ w. receive_zip_loop (pos size) more w rest)
              (append_assoc written bs (concat chunks)),
    )

-- If the chunks before the last stay below the announced size and the last one reaches it, the loop
-- ends after the last chunk, and has written all of them, in order: also the bytes past the size.
pub receive_zip_loop-complete :
    (size : ℕ) (chunks : List Bytes) (last : Bytes) (rest : List Recv)
    → length (concat chunks) < size
    → size ≤ length (concat chunks) + length last
    → receive_zip_loop (pos size) 0 [] (map recv_bytes chunks ++ (recv_bytes last ∷ rest))
      ≡ (concat chunks ++ last, complete, rest)
receive_zip_loop-complete size chunks last rest below reaches =
    let (more, e, step) =
      receive_zip_loop-below size 0 [] chunks (recv_bytes last ∷ rest) (omega arith) in
    step ∙ receive_zip_loop-last size more (concat chunks) last rest (omega arith)

-- If the file opens and the server closes the connection before the announced size is reached, the file holds only the
-- chunks that came, and the client reports success all the same.
pub receive_zip_truncated :
    (c : Client) (size : ℕ) (chunks : List Bytes) (rest : List Recv)
    → c.zip_opens ≡ true
    → c.zip_size_bytes ≡ pos size
    → c.incoming ≡ map recv_bytes chunks ++ (recv_closed ∷ rest)
    → length (concat chunks) < size
    → receive_zip c ≡ (
      returns tt,
      record c {
        incoming = rest;
        events =
            (c.events ++ (wrote (concat chunks) ∷ []))
            ++ (says "Zip file received successfully" ∷ []);
      },
    )
unfolding receive_zip
receive_zip_truncated c size chunks rest o z i below =
    let (more, e, step) =
      receive_zip_loop-below size 0 [] chunks (recv_closed ∷ rest) (omega arith) in
    rw (o, z, i, step ∙ receive_zip_loop-closed (pos size) more (concat chunks) rest)
