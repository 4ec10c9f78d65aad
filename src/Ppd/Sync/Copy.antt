-- ===== src/Ppd/Sync/Copy.antt =====
-- What a replication does to the two disks.
use grage.Prelude.{
  ℕ, zero, suc, ◌-◌, ◌%◌, ◌^◌, ◌<◌, ◌≤◌, true, false, some, List, [], ◌∷◌, ◌++◌, ◌≡◌, refl, ap, sym,
  ◌∙◌, ltb, length, take, drop, replicate, arith, if◌then◌else◌, Bool-cases, inl, inr, append-nil,
  append_assoc, length-take, length-drop, take-append-drop, take-length_append, drop-length, ltb→lt,
  lt→ltb,
}
use grage.Nipc.Message.{NipcMessage, build_nipc_message}
use grage.Ppd.Persistence.{sector_size}
use grage.Ppd.Queues.{Config, State}
use grage.Ppd.Sync.{
  disk_sector_of, sync_sector_message, finish_message, process_file_sectors, finish_replication,
  sync_messages, replicate_put, open_volume, activate, praid_round, praid_rounds,
}

-- The bytes of each read of a file.
abbrev pub chunks : ℕ → List ℕ → List (List ℕ)
chunks zero rest = []
chunks (suc fuel) rest =
    let following = chunks fuel (drop sector_size rest) in
    let bytes = take sector_size rest in
    if ltb (length bytes) sector_size
    then (if ltb 0 (length bytes) then bytes ∷ [] else [])
    else bytes ∷ following

-- The messages that carry them.
abbrev pub sector_messages : NipcMessage → List (List ℕ) → List NipcMessage
sector_messages builder [] = []
sector_messages builder (b ∷ bs) =
    sync_sector_message builder (length b) (disk_sector_of b) ∷ sector_messages builder bs

abbrev pub join : List (List ℕ) → List ℕ
join [] = []
join (b ∷ bs) = b ++ join bs

-- Each chunk has a byte and fits a sector.
abbrev pub AreChunks : List (List ℕ) → Type 0
AreChunks [] = Unit {0}
AreChunks (b ∷ bs) = (0 < length b) × (length b ≤ sector_size) × AreChunks bs

pub process_file_sectors-chunks :
    (builder : NipcMessage) (fuel : ℕ) (rest : List ℕ)
    → process_file_sectors builder fuel rest ≡ sector_messages builder (chunks fuel rest)
unfolding process_file_sectors
process_file_sectors-chunks builder zero rest = refl
process_file_sectors-chunks builder (suc fuel) rest =
    elim (Bool-cases (ltb (length (take sector_size rest)) sector_size)) [
      | inl e ↦ elim (Bool-cases (ltb 0 (length (take sector_size rest)))) [
        | inl f ↦ rw (e, f) refl
        | inr f ↦ rw (e, f) refl
      ]
      | inr e ↦ rw e (
          ap
            (◌∷◌ (
              sync_sector_message builder (length (take sector_size rest))
                (disk_sector_of (take sector_size rest))))
            (process_file_sectors-chunks builder fuel (drop sector_size rest)))
    ]

length-take_le : (n : ℕ) (xs : List ℕ) → length (take n xs) ≤ n
length-take_le n xs = omega (arith, length-take n xs)

le_of_ltb : (a b : ℕ) → ltb a b ≡ false → b ≤ a
le_of_ltb a b h = ground arith

-- A read that comes up short leaves nothing behind.
short_read :
    (rest : List ℕ)
    → length (take sector_size rest) < sector_size
    → take sector_size rest ++ [] ≡ rest
short_read rest h =
    let l : length rest ≤ sector_size = omega (arith, length-take sector_size rest) in
    ap (take sector_size rest ++◌) (sym (drop-length sector_size rest l))
    ∙ take-append-drop sector_size rest

nothing_left : (xs : List ℕ) → length (take sector_size xs) ≤ 0 → [] ≡ xs
nothing_left [] h = refl
nothing_left (x ∷ xs) h = absurd (omega (arith, length-take sector_size (x ∷ xs)))

pub AreChunks-chunks : (fuel : ℕ) (rest : List ℕ) → AreChunks (chunks fuel rest)
AreChunks-chunks zero rest = tt
AreChunks-chunks (suc fuel) rest =
    elim (Bool-cases (ltb (length (take sector_size rest)) sector_size)) [
      | inl e ↦ elim (Bool-cases (ltb 0 (length (take sector_size rest)))) [
        | inl f ↦ rw (e, f) (ltb→lt _ _ f, length-take_le sector_size rest, tt)
        | inr f ↦ rw (e, f) tt
      ]
      | inr e ↦ rw e (
        omega (arith, le_of_ltb _ _ e),
        length-take_le sector_size rest,
        AreChunks-chunks fuel (drop sector_size rest),
      )
    ]

join-chunks : (fuel : ℕ) (rest : List ℕ) → length rest < fuel → join (chunks fuel rest) ≡ rest
join-chunks zero rest h = absurd (omega arith)
join-chunks (suc fuel) rest h =
    elim (Bool-cases (ltb (length (take sector_size rest)) sector_size)) [
      | inl e ↦ elim (Bool-cases (ltb 0 (length (take sector_size rest)))) [
        | inl f ↦ rw (e, f) (short_read rest (ltb→lt _ _ e))
        | inr f ↦ rw (e, f) (nothing_left rest (le_of_ltb 0 _ f))
      ]
      | inr e ↦ rw e (
          ap (take sector_size rest ++◌) (
            join-chunks fuel (drop sector_size rest) (
              omega (
                arith,
                le_of_ltb _ _ e,
                length-take sector_size rest,
                length-drop sector_size rest,
              )))
          ∙ take-append-drop sector_size rest)
    ]

-- The messages of a replication as the disk that receives them sees them.
pub sync_messages-chunks :
    (builder : NipcMessage) (file : List ℕ)
    → sync_messages builder file
      ≡ sector_messages builder (chunks (suc (length file)) file) ++ (finish_message builder ∷ [])
sync_messages-chunks builder file =
    ap (λ ms. ms ++ (finish_message builder ∷ []))
      (process_file_sectors-chunks builder (suc (length file)) file)

-- A disk whose file is open and that has received some bytes more.
abbrev received : State → List ℕ → State
received s b = record s {
  disk = s.disk ++ b;
  replication_disk_volume = true;
  replication_process_active = true;
}

open_volume-true : (s : State) → s.replication_disk_volume ≡ true → open_volume s ≡ s
open_volume-true s o = rw o refl

received-nil :
    (s : State)
    → s.replication_disk_volume ≡ true
    → s.replication_process_active ≡ true
    → received s [] ≡ s
received-nil s o a = rw (o, a, append-nil s.disk) refl

received-received : (s : State) (a b : List ℕ) → received (received s a) b ≡ received s (a ++ b)
received-received s a b = rw (append_assoc s.disk a b) refl

opened :
    (s : State) (b : List ℕ)
    → record (open_volume (activate s)) { disk = (open_volume (activate s)).disk ++ b }
      ≡ received (open_volume s) b
opened s b = elim (Bool-cases s.replication_disk_volume) [ inl e ↦ rw e refl | inr e ↦ rw e refl ]

praid_rounds-cons :
    (garbage : NipcMessage) (c : Config) (s s' : State) (m : NipcMessage) (ms : List NipcMessage)
    → praid_round garbage c s m ≡ some s'
    → praid_rounds garbage c s (m ∷ ms) ≡ praid_rounds garbage c s' ms
unfolding praid_rounds
praid_rounds-cons garbage c s s' m ms e = rw (praid_rounds, e) refl

receive_chunk :
    (garbage builder : NipcMessage) (c : Config) (s : State) (b : List ℕ)
    → 0 < length b
    → length b ≤ sector_size
    → praid_round garbage c s (sync_sector_message builder (length b) (disk_sector_of b))
      ≡ some (received (open_volume s) b)
unfolding praid_round replicate_put build_nipc_message
receive_chunk garbage builder c s b h l =
    let n : length b % 2 ^ 16 ≡ length b = omega arith in
    let t = take-length_append (length b) b (replicate (sector_size - length b) 0) refl in
    rw (n, lt→ltb 0 (length b) h, t) (ap some (opened s b))

receive_chunks :
    (garbage builder : NipcMessage) (c : Config) (s : State) (bs : List (List ℕ))
    (tail : List NipcMessage)
    → s.replication_disk_volume ≡ true
    → s.replication_process_active ≡ true
    → AreChunks bs
    → praid_rounds garbage c s (sector_messages builder bs ++ tail)
      ≡ praid_rounds garbage c (received s (join bs)) tail
receive_chunks garbage builder c s [] tail o a h =
    ap (λ t. praid_rounds garbage c t tail) (sym (received-nil s o a))
receive_chunks garbage builder c s (b ∷ bs) tail o a h =
    praid_rounds-cons garbage c s (received (open_volume s) b)
      (sync_sector_message builder (length b) (disk_sector_of b))
      (sector_messages builder bs ++ tail) (receive_chunk garbage builder c s b (h.0) (h.1))
    ∙ ap (λ t. praid_rounds garbage c (received t b) (sector_messages builder bs ++ tail))
        (open_volume-true s o)
    ∙ receive_chunks garbage builder c (received s b) bs tail refl refl (h.2)
    ∙ ap (λ t. praid_rounds garbage c t tail) (received-received s b (join bs))

-- From a disk whose file is not open: it is emptied first.
receive_all :
    (garbage builder : NipcMessage) (c : Config) (s : State) (bs : List (List ℕ))
    (tail : List NipcMessage)
    → s.replication_disk_volume ≡ false
    → AreChunks bs
    → 0 < length (join bs)
    → praid_rounds garbage c s (sector_messages builder bs ++ tail)
      ≡ praid_rounds garbage c (received (record s { disk = [] }) (join bs)) tail
receive_all garbage builder c s [] tail o h n = absurd (omega arith)
receive_all garbage builder c s (b ∷ bs) tail o h n =
    praid_rounds-cons garbage c s (received (open_volume s) b)
      (sync_sector_message builder (length b) (disk_sector_of b))
      (sector_messages builder bs ++ tail) (receive_chunk garbage builder c s b (h.0) (h.1))
    ∙ receive_chunks garbage builder c (received (open_volume s) b) bs tail refl refl (h.2)
    ∙ ap (λ t. praid_rounds garbage c t tail) (received-received (open_volume s) b (join bs))
    ∙ ap (λ t. praid_rounds garbage c t tail) (emptied s (b ++ join bs) o)
  where
    emptied :
        (s : State) (d : List ℕ)
        → s.replication_disk_volume ≡ false
        → received (open_volume s) d ≡ received (record s { disk = [] }) d
    emptied s d o = rw o refl

finish :
    (garbage builder : NipcMessage) (c : Config) (s : State)
    → s.replication_process_active ≡ true
    → praid_rounds garbage c s (finish_message builder ∷ [])
      ≡ some (record s {
        replication_disk_volume = false;
        volume_size = length s.disk % 2 ^ 32;
        replication_process_active = false;
      })
unfolding praid_rounds praid_round build_nipc_message finish_replication
finish garbage builder c s a = rw a refl

-- A disk whose file was not open for a replication, and that receives the messages of a master
-- with a file that is not empty, ends with that file, closed and mapped at its size, and with the
-- replication over; all else is as before.
pub praid_rounds-copy :
    (garbage builder : NipcMessage) (c : Config) (s : State) (file : List ℕ)
    → s.replication_disk_volume ≡ false
    → 0 < length file
    → praid_rounds garbage c s (sync_messages builder file)
      ≡ some (record s {
        disk = file;
        replication_disk_volume = false;
        volume_size = length file % 2 ^ 32;
        replication_process_active = false;
      })
praid_rounds-copy garbage builder c s file o n =
    let fuel = suc (length file) in
    let j = join-chunks fuel file (omega arith) in
    ap (praid_rounds garbage c s) (sync_messages-chunks builder file)
    ∙ receive_all garbage builder c s (chunks fuel file) (finish_message builder ∷ []) o
        (AreChunks-chunks fuel file) (omega (arith, ap length j))
    ∙ ap
        (λ d.
          praid_rounds garbage c (received (record s { disk = [] }) d)
            (finish_message builder ∷ []))
        j
    ∙ finish garbage builder c (received (record s { disk = [] }) file) refl
