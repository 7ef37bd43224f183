-- ===== src/Socket/Reading.antt =====
-- Reading an exact number of bytes, however the network cuts the stream.
use kemtls.Common.{
  ℕ, zero, suc, ◌+◌, ◌-◌, ◌≤◌, ◌<◌, ◌≡◌, refl, sym, ap, ◌∙◌, inl, inr, arith, List, [], ◌∷◌, ◌++◌,
  append-nil, append_assoc, length, length-append, take, drop, length-take, length-drop,
  take-append-drop, take-append_of_length, drop-append_of_length, All, Bytes, Bool-cases, leb,
}
use kemtls.Common.Error.{Error, Result, ok, raised}
use kemtls.Socket.{recv, read_loop, read_n_bytes}

-- The bytes still to come.
abbrev pub stream : List Bytes → Bytes
stream [] = []
stream (chunk ∷ chunks) = chunk ++ stream chunks

-- `recv` hands over bytes only until the peer has closed: no chunk is empty.
abbrev pub IsOpen : List Bytes → Type 0
IsOpen = All (λ chunk. 0 < length chunk)

-- One `recv` moves a front part of the stream, of at most k bytes, and of one at least if any.
pub record Receives (k : ℕ) (chunks : List Bytes) (got : Bytes) (rest : List Bytes) : Type 0 where
  pub split : got ++ stream rest ≡ stream chunks
  pub bounded : length got ≤ k
  pub progress : 0 < length (stream chunks) → 0 < k → 0 < length got
  pub still_open : IsOpen rest

recv_short : (k : ℕ) (c : Bytes) (cs : List Bytes) → length c ≤ k → recv k (c ∷ cs) ≡ (c, cs)
unfolding recv
recv_short k c cs h = ground arith

recv_long :
    (k : ℕ) (c : Bytes) (cs : List Bytes)
    → k < length c
    → recv k (c ∷ cs) ≡ (take k c, drop k c ∷ cs)
unfolding recv
recv_long k c cs h = ground arith

recv-Receives :
    (k : ℕ) (chunks : List Bytes)
    → IsOpen chunks
    → Receives k chunks (recv k chunks).0 (recv k chunks).1
recv-Receives k [] h =
    unfold recv in
    record {
      split = refl;
      bounded = omega arith;
      progress = λ p q. absurd (omega arith);
      still_open = tt;
    }
recv-Receives k (c ∷ cs) (hc, h) = elim (Bool-cases (leb (length c) k)) [
  | inl fits ↦
      rw (recv_short k c cs (ground arith))
        (record { split = refl; bounded = ground arith; progress = λ _ _. hc; still_open = h })
  | inr long ↦ rw (recv_long k c cs (ground arith)) (record {
    split =
        sym (append_assoc (take k c) (drop k c) (stream cs))
        ∙ ap (λ l. l ++ stream cs) (take-append-drop k c);
    bounded = omega (arith, length-take k c);
    progress = λ _ pos. ground (arith, length-take k c);
    still_open = (ground (arith, length-drop k c), h);
  })
]

-- The loop has read `more` on top of `got`, n bytes in all.
abbrev Reads : ℕ → Bytes → List Bytes → Result Bytes × List Bytes → Type 0
Reads n got chunks outcome =
    (more : Bytes) × (rest : List Bytes) × (outcome ≡ (ok (got ++ more), rest))
    × (more ++ stream rest ≡ stream chunks)
    × (length (got ++ more) ≡ n)
    × IsOpen rest

Reads-nothing :
    (n : ℕ) (got : Bytes) (chunks : List Bytes)
    → length got ≡ n
    → IsOpen chunks
    → Reads n got chunks (ok got, chunks)
Reads-nothing n got chunks full h = ([], chunks, rw append-nil, refl, rw append-nil full, h)

module _ (eof : Error) (n : ℕ) where
  loop_done :
      (fuel : ℕ) (got : Bytes) (chunks : List Bytes)
      → n ≤ length got
      → read_loop fuel eof n got chunks ≡ (ok got, chunks)
  unfolding read_loop
  loop_done zero got chunks h = ground arith
  loop_done (suc fuel) got chunks h = ground arith

  loop_next :
      (fuel : ℕ) (got : Bytes) (chunks : List Bytes)
      → length got < n
      → 0 < length (recv (n - length got) chunks).0
      → read_loop (suc fuel) eof n got chunks
        ≡ read_loop fuel eof n
            (got ++ (recv (n - length got) chunks).0)
            (recv (n - length got) chunks).1
  unfolding read_loop
  loop_next fuel got chunks h pos = ground arith

  loop_eof :
      (fuel : ℕ) (got : Bytes) (chunks : List Bytes)
      → length got < n
      → length (recv (n - length got) chunks).0 ≡ 0
      → read_loop (suc fuel) eof n got chunks ≡ (raised eof, (recv (n - length got) chunks).1)
  unfolding read_loop
  loop_eof fuel got chunks h closed = ground arith

  loop-Reads :
      (fuel : ℕ) (got : Bytes) (chunks : List Bytes)
      → length got ≤ n
      → n ≤ length got + fuel
      → n ≤ length got + length (stream chunks)
      → IsOpen chunks
      → Reads n got chunks (read_loop fuel eof n got chunks)
  loop-Reads zero got chunks le enough there h =
      rw (loop_done zero got chunks (omega arith)) (Reads-nothing n got chunks (omega arith) h)
  loop-Reads (suc fuel) got chunks le enough there h = elim (Bool-cases (leb n (length got))) [
    | inl full ↦
        rw (loop_done (suc fuel) got chunks (ground arith))
          (Reads-nothing n got chunks (ground arith) h)
    | inr less ↦
        let chunk = (recv (n - length got) chunks).0 in
        let after = (recv (n - length got) chunks).1 in
        let short : length got < n = ground arith in
        let step : Receives (n - length got) chunks chunk after = recv-Receives _ chunks h in
        let pos : 0 < length chunk = step.progress (omega arith) (omega arith) in
        let sizes : length (stream chunks) ≡ length chunk + length (stream after) =
          rw (← step.split) (length-append chunk (stream after)) in
        let (more, rest, result, split, full, open_rest) =
          loop-Reads fuel (got ++ chunk) after
            (omega (arith, length-append got chunk, step.bounded))
            (omega (arith, length-append got chunk)) (omega (arith, length-append got chunk))
            step.still_open in
        (
          chunk ++ more,
          rest,
          loop_next fuel got chunks short pos
              ∙ result
              ∙ ap (λ l. (ok l, rest)) (append_assoc got chunk more),
          append_assoc chunk more (stream rest) ∙ ap (λ l. chunk ++ l) split ∙ step.split,
          rw (← append_assoc got chunk more) full,
          open_rest,
        )
  ]

  loop_starves :
      (fuel : ℕ) (got : Bytes) (chunks : List Bytes)
      → n ≤ length got + fuel
      → length got + length (stream chunks) < n
      → IsOpen chunks
      → (rest : List Bytes) × (read_loop fuel eof n got chunks ≡ (raised eof, rest))
  loop_starves zero got chunks enough few h = absurd (omega arith)
  loop_starves (suc fuel) got chunks enough few h =
      let chunk = (recv (n - length got) chunks).0 in
      let after = (recv (n - length got) chunks).1 in
      let short : length got < n = omega arith in
      let step : Receives (n - length got) chunks chunk after = recv-Receives _ chunks h in
      let sizes : length (stream chunks) ≡ length chunk + length (stream after) =
        rw (← step.split) (length-append chunk (stream after)) in
      elim (Bool-cases (leb 1 (length chunk))) [
        | inl some_bytes ↦
            let pos : 0 < length chunk = ground arith in
            let (rest, result) =
              loop_starves fuel (got ++ chunk) after (omega (arith, length-append got chunk))
                (omega (arith, length-append got chunk)) step.still_open in
            (rest, loop_next fuel got chunks short pos ∙ result)
        | inr no_bytes ↦
            let closed : length chunk ≡ 0 = ground arith in
            (after, loop_eof fuel got chunks short closed)
      ]

-- What `_read_n_bytes` returns and leaves, when n bytes are to come and when they are not.
pub record ReadsExactly (eof : Error) (n : ℕ) (chunks : List Bytes) : Type 0 where
  pub enough :
      n ≤ length (stream chunks)
      → (rest : List Bytes) × (read_n_bytes eof n chunks ≡ (ok (take n (stream chunks)), rest))
        × (stream rest ≡ drop n (stream chunks))
        × IsOpen rest
  pub starved :
      length (stream chunks) < n
      → (rest : List Bytes) × (read_n_bytes eof n chunks ≡ (raised eof, rest))

Reads-from_start :
    (n : ℕ) (chunks : List Bytes) (outcome : Result Bytes × List Bytes)
    → Reads n [] chunks outcome
    → (rest : List Bytes) × (outcome ≡ (ok (take n (stream chunks)), rest))
      × (stream rest ≡ drop n (stream chunks))
      × IsOpen rest
Reads-from_start n chunks outcome (more, rest, result, split, full, open_rest) =
    let front : take n (stream chunks) ≡ more =
      ap (take n) (sym split) ∙ take-append_of_length more (stream rest) full in
    let back : drop n (stream chunks) ≡ stream rest =
      ap (drop n) (sym split) ∙ drop-append_of_length more (stream rest) full in
    (rest, result ∙ ap (λ l. (ok l, rest)) (sym front), sym back, open_rest)

pub read_enough :
    (eof : Error) (n : ℕ) (chunks : List Bytes)
    → IsOpen chunks
    → n ≤ length (stream chunks)
    → (rest : List Bytes) × (read_n_bytes eof n chunks ≡ (ok (take n (stream chunks)), rest))
      × (stream rest ≡ drop n (stream chunks))
      × IsOpen rest
unfolding read_n_bytes
read_enough eof n chunks h there =
    Reads-from_start n chunks _
      (loop-Reads eof n n [] chunks (omega arith) (omega arith) (omega arith) h)

-- However the stream is cut into chunks, `_read_n_bytes` returns its first n bytes and leaves the
-- rest, or raises the end-of-file error when fewer than n bytes come before the peer closes.
pub read_n_bytes-ReadsExactly :
    (eof : Error) (n : ℕ) (chunks : List Bytes) → IsOpen chunks → ReadsExactly eof n chunks
read_n_bytes-ReadsExactly eof n chunks h = record {
  enough = read_enough eof n chunks h;
  starved =
      λ few. unfold read_n_bytes in loop_starves eof n n [] chunks (omega arith) (omega arith) h;
}
