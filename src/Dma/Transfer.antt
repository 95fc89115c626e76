-- ===== src/Dma/Transfer.antt =====
-- The two SCSI transfers: pal_dma_start_from_device and pal_dma_start_to_device of
-- bsa-acs-drv/files/platform/pal_linux/files/src/pal_dma.c.
use linux_acs.Prelude.{
  ℕ, ◌≡◌, refl, Option, none, some, List, [], ◌∷◌, ◌++◌, replicate, set, get_or, length,
}

-- READ_10 and WRITE_10 of the kernel, and scsi_execute_req: from the bytes of a command, `none` for
-- one that was not initialised, and a length to its result.
pub record Scsi : Type 0 where
  pub read_10 : ℕ
  pub write_10 : ℕ
  pub execute_req : List (Option ℕ) → ℕ → ℕ

abbrev pub Command : Type 0
Command = List (Option ℕ)

-- Sixteen bytes, of which fifteen are cleared.
unfoldable pub read_command : Scsi → Command
read_command k =
    let cmd = replicate 15 (some 0) ++ none ∷ [] in
    let cmd = set cmd 0 (some k.read_10) in
    let cmd = set cmd 8 (some 1) in let cmd = set cmd 10 (some 0) in set cmd 11 (some 0)

unfoldable pub write_command : Scsi → Command
write_command k =
    let cmd = replicate 10 (some 0) in let cmd = set cmd 0 (some k.write_10) in set cmd 8 (some 1)

unfoldable pub start_from_device : Scsi → ℕ → ℕ
unfolding read_command
start_from_device k length = k.execute_req (read_command k) length

-- The result of the request is dropped.
unfoldable pub start_to_device : Scsi → ℕ → ℕ
unfolding write_command
start_to_device k length = let ret = k.execute_req (write_command k) length in 0

abbrev byte : Command → ℕ → Option ℕ
byte cmd i = get_or cmd i none

-- Both commands start with their operation code and ask for one block in bytes 7 and 8, the
-- highest first; the write command has ten bytes and the read command sixteen.
pub commands-one_block :
    (k : Scsi)
    → (byte (read_command k) 0 ≡ some k.read_10)
      × (byte (write_command k) 0 ≡ some k.write_10)
      × (byte (read_command k) 7 ≡ some 0)
      × (byte (read_command k) 8 ≡ some 1)
      × (byte (write_command k) 7 ≡ some 0)
      × (byte (write_command k) 8 ≡ some 1)
      × (length (write_command k) ≡ 10)
      × (length (read_command k) ≡ 16)
unfolding read_command write_command
commands-one_block k = (refl, refl, refl, refl, refl, refl, refl, refl)
