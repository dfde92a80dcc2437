-- ===== src/Transfer/Remainder.antt =====
-- client/service/TransferService.cpp: the rest of a table that arrives in one piece, up to the end of
-- the download.
use log_transfer_analyzer.Prelude.{
  ℕ, zero, suc, ◌-◌, ◌≡◌, ◌≤◌, ◌<◌, refl, sym, ap, subst, ◌∙◌, Bool, true, false, not, ◌==◌,
  if◌then◌else◌, [], ◌∷◌, ◌++◌, Bytes, length, length-take, length-drop, take, drop,
  take-append-drop, some, arith,
}
use log_transfer_analyzer.Crc32.{crc32}
use log_transfer_analyzer.Net.TcpSocket
use log_transfer_analyzer.Net.TcpSocket.{Socket}
use log_transfer_analyzer.Protocol.{ResultHeader}
use log_transfer_analyzer.Session.Steps.{if_cases}
use log_transfer_analyzer.Transfer.{
  Transfer, csv_payload, completed, stage, push, send, fail_session,
}
use log_transfer_analyzer.Transfer.Download.{
  finish_download, csv_share, csv_appended, handle_csv_bytes, handle_bytes, bytes_loop,
}

-- The windows can take the result, and the end of the download was told to the server.
abbrev pub Delivered : Bytes → Transfer → Type 0
Delivered full t = (t.result_csv ≡ full) × (t.session_completed ≡ true)

abbrev pub announced : Bytes → ResultHeader
announced full = record { csv_size = length full; crc32 = crc32 0 full }

pub differs : {m n : ℕ} → m ≡ n → (m == n) ≡ false → ⊥
differs e unequal = ground arith

differs_not : {m n : ℕ} → m ≡ n → not (m == n) ≡ true → ⊥
differs_not e unequal = ground arith

-- The service that has everything.
pub finish_download-Delivered :
    (full : Bytes) (t : Transfer)
    → t.csv ≡ full
    → t.csv_expected_crc ≡ crc32 0 full
    → (TcpSocket.send t.socket).1 ≡ 0
    → Delivered full (finish_download t)
unfolding finish_download send
finish_download-Delivered full t whole sum accepted =
    if_cases (Delivered full) (not (crc32 0 t.csv == t.csv_expected_crc))
      (λ wrong. absurd (differs_not (ap (crc32 0) whole ∙ sym sum) wrong))
      (λ _.
        if_cases
          (λ (p : Transfer × Bool). Delivered full (
            if p.1
            then push (stage completed) (record p.0 { session_completed = true })
            else fail_session p.0))
          ((TcpSocket.send t.socket).1 == 0) (λ _. (whole, refl))
          (λ refused. absurd (differs accepted refused)))

pub bytes_loop_end : (fuel : ℕ) (t : Transfer) → bytes_loop fuel t [] ≡ t
unfolding bytes_loop
bytes_loop_end zero t = refl
bytes_loop_end (suc fuel) t = refl

-- A round that consumes something.
pub bytes_loop_round :
    (fuel count : ℕ) (t t' : Transfer) (data' : Bytes)
    → 0 < fuel
    → 0 < length data'
    → 0 < count
    → handle_bytes t.expecting t data' ≡ some (t', count)
    → bytes_loop fuel t data' ≡ bytes_loop (fuel - 1) t' (drop count data')
unfolding bytes_loop
bytes_loop_round (suc fuel) (suc count) t t' (x ∷ data') fuelled some_data consumes e = rw e (
    if_cases P (suc (length data') == 0) (λ ended. absurd (ground arith))
      λ _.
        if_cases P (suc count == 0) (λ ended. absurd (ground arith))
          λ _. ap (λ n. bytes_loop n t' (drop (suc count) (x ∷ data'))) (omega arith))
  where
    P : Transfer → Type 0
    P u = u ≡ bytes_loop (suc fuel - 1) t' (drop (suc count) (x ∷ data'))
bytes_loop_round zero count t t' data' fuelled some_data consumes e = absurd (omega arith)
bytes_loop_round (suc fuel) zero t t' data' fuelled some_data consumes e = absurd (omega arith)
bytes_loop_round (suc fuel) (suc count) t t' [] fuelled some_data consumes e = absurd (omega arith)

pub drop_all : (n : ℕ) (xs : Bytes) → length xs ≤ n → drop n xs ≡ []
drop_all zero [] h = refl
drop_all (suc n) [] h = refl
drop_all (suc n) (x ∷ xs) h = drop_all n xs (omega arith)
drop_all zero (x ∷ xs) h = absurd (omega arith)

pub drop_front : (xs ys : Bytes) → drop (length xs) (xs ++ ys) ≡ ys
drop_front [] ys = refl
drop_front (x ∷ xs) ys = drop_front xs ys

pub take_all : (n : ℕ) (xs : Bytes) → length xs ≤ n → take n xs ≡ xs
take_all zero [] h = refl
take_all (suc n) [] h = refl
take_all (suc n) (x ∷ xs) h = ap (λ ys. x ∷ ys) (take_all n xs (omega arith))
take_all zero (x ∷ xs) h = absurd (omega arith)

-- The rest of the table in one piece.
pub rest-Delivered :
    (t : Transfer) (full : Bytes) (k fuel : ℕ)
    → 0 < fuel
    → k < length full
    → (TcpSocket.send t.socket).1 ≡ 0
    → t.expecting ≡ csv_payload
    → t.csv ≡ take k full
    → t.csv_size ≡ length full
    → t.csv_expected_crc ≡ crc32 0 full
    → Delivered full (bytes_loop fuel t (drop k full))
unfolding handle_bytes handle_csv_bytes
rest-Delivered t full k fuel fuelled some_left accepted at_csv prefix size sum =
    subst (Delivered full) (sym looped)
      (finish_download-Delivered full (csv_appended t rest) whole sum accepted)
  where
    rest : Bytes
    rest = drop k full

    all_of_it : csv_share t rest ≡ length rest
    all_of_it = rw (prefix, size) (grind (arith, length-take k full, length-drop k full))

    whole : (csv_appended t rest).csv ≡ full
    whole =
        rw (all_of_it, take_all (length rest) rest (omega arith), prefix) (take-append-drop k full)

    finished :
        (if length (csv_appended t rest).csv == t.csv_size
          then finish_download (csv_appended t rest)
          else csv_appended t rest)
        ≡ finish_download (csv_appended t rest)
    finished =
        if_cases (λ (t' : Transfer). t' ≡ finish_download (csv_appended t rest))
          (length (csv_appended t rest).csv == t.csv_size) (λ _. refl)
          (λ more. absurd (differs (ap length whole ∙ sym size) more))

    handled :
        handle_bytes t.expecting t rest ≡ some (finish_download (csv_appended t rest), length rest)
    handled =
        subst
          (λ expecting.
            handle_bytes expecting t rest
            ≡ some (finish_download (csv_appended t rest), length rest))
          (sym at_csv) (λ i. some (finished i, all_of_it i))

    looped : bytes_loop fuel t rest ≡ finish_download (csv_appended t rest)
    looped =
        bytes_loop_round fuel (length rest) t (finish_download (csv_appended t rest)) rest fuelled
          (omega (arith, length-drop k full)) (omega (arith, length-drop k full)) handled
        ∙ ap (bytes_loop (fuel - 1) (finish_download (csv_appended t rest)))
            (drop_all (length rest) rest (omega arith))
        ∙ bytes_loop_end (fuel - 1) (finish_download (csv_appended t rest))
