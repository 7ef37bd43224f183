-- ===== src/Socket.antt =====
-- The stream socket that the transports read and write, and the loop that reads an exact number of
-- bytes (`_read_n_bytes` of kemtls/record_layer.py and kemtls/tcp_transport.py, all alike).
-- `recv(k)` returns at most k bytes, and no byte once the peer has closed. What it returns when is
-- up to the network: `incoming` is the sequence of chunks that it will deliver.
pub mod Reading
use kemtls.Common.{
  ℕ, zero, suc, ◌-◌, List, [], ◌∷◌, ◌++◌, leb, if◌then◌else◌, length, take, drop, Bytes,
}
use kemtls.Common.Error.{Error, out_of_fuel, Result, ok, raised}

pub record Socket : Type 0 where
  pub incoming : List Bytes
  pub sent : List Bytes

unfoldable pub recv : ℕ → List Bytes → Bytes × List Bytes
recv k [] = ([], [])
recv k (chunk ∷ chunks) =
    if leb (length chunk) k then (chunk, chunks) else (take k chunk, drop k chunk ∷ chunks)

abbrev pub sendall : Bytes → Socket → Socket
sendall message sock = record sock { sent = sock.sent ++ message ∷ [] }

-- `while len(got) < n`. A round reads a byte at least, so n rounds are enough.
unfoldable pub read_loop : ℕ → Error → ℕ → Bytes → List Bytes → Result Bytes × List Bytes
read_loop zero eof n got chunks =
    if leb n (length got) then (ok got, chunks) else (raised out_of_fuel, chunks)
read_loop (suc fuel) eof n got chunks =
    let (chunk, rest) = recv (n - length got) chunks in
    let more = read_loop fuel eof n (got ++ chunk) rest in
    if leb n (length got)
    then (ok got, chunks)
    else (if leb 1 (length chunk) then more else (raised eof, rest))

unfoldable pub read_n_bytes : Error → ℕ → List Bytes → Result Bytes × List Bytes
unfolding read_loop recv
read_n_bytes eof n chunks = read_loop n eof n [] chunks
