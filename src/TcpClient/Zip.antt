-- ===== src/TcpClient/Zip.antt =====
-- `receive_zip`: writes what `recv` gives to a file until the announced size is reached.
use shelter_server_hpc.Prelude.{
  ℕ, ◌+◌, ℤ, pos, leb_ℤ, List, [], ◌∷◌, ◌++◌, Bytes, if◌then◌else◌, length,
}
use shelter_server_hpc.TcpClient.Session.{
  Recv, recv_error, recv_closed, recv_bytes, says, wrote, blocks, Run, ◌>>◌, ends, emit,
}

-- How the loop ends: on an error, on the end of the stream, on the size, or it still waits.
pub data ZipEnd : Type 0 where
  failed closed complete waiting : ZipEnd

-- The bytes written, how the loop ends, and the results of `recv` that are left.
unfoldable pub receive_zip_loop : ℤ → ℕ → Bytes → List Recv → Bytes × ZipEnd × List Recv
receive_zip_loop size total written [] = (written, waiting, [])
receive_zip_loop size total written (recv_error ∷ rest) = (written, failed, rest)
receive_zip_loop size total written (recv_closed ∷ rest) = (written, closed, rest)
receive_zip_loop size total written (recv_bytes bs ∷ rest) =
    let more = receive_zip_loop size (total + length bs) (written ++ bs) rest in
    if leb_ℤ size (pos (total + length bs)) then (written ++ bs, complete, rest) else more

-- What the function prints at the end; a waiting `recv` does not come there.
abbrev pub zip_report : ZipEnd → Run (Unit {0})
zip_report failed = emit (says "Error receiving data from server")
zip_report closed = emit (says "Zip file received successfully")
zip_report complete = emit (says "Zip file received successfully")
zip_report waiting = ends blocks

unfoldable pub receive_zip : Run (Unit {0})
unfolding receive_zip_loop
receive_zip c =
    if c.zip_opens
    then (let (written, end, rest) = receive_zip_loop c.zip_size_bytes 0 [] c.incoming in
        (do emit (wrote written); zip_report end) (record c { incoming = rest }))
    else emit (says "Error opening file to write") c
