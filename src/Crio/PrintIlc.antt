-- ===== src/Crio/PrintIlc.antt =====
-- class PrintILC of include/cRIO/PrintILC.h and src/LSST/cRIO/PrintILC.cpp: the pages of a firmware, as
-- _writeHex sends them. Each call of writeApplicationPage is followed by ilcCommands and clear.
pub mod Pages
pub mod Program
pub mod Bootloader
pub mod Steady
pub mod Quiet
use ts_c_riocpp.Common.{
  ℕ, zero, suc, ◌+◌, ◌-◌, ◌*◌, ◌%◌, ◌^◌, List, [], ◌∷◌, ◌++◌, u16, ◌==◌, if◌then◌else◌, length,
}
use ts_c_riocpp.Modbus.Buffer.{Arg, scalar, uint8s, uint16}
use ts_c_riocpp.Modbus.Crc.{crc_of}
use ts_c_riocpp.Crio.IntelHex.{filling}

abbrev pub application_page_length : ℕ
application_page_length = 192

-- The two loops that fill a page: three bytes are copied, the fourth is skipped. The second list is
-- what startData then points to. Both loops read whole groups only (see Pages).
unfoldable pub read_groups : ℕ → List ℕ → List ℕ × List ℕ
read_groups zero rest = ([], rest)
read_groups (suc n) (a ∷ b ∷ c ∷ d ∷ rest) =
    let page = read_groups n rest in (a ∷ b ∷ c ∷ page.0, page.1)
read_groups (suc n) rest = ([], [])

-- The address and the data of a call of writeApplicationPage.
pub record Page : Type 0 where
  pub address : ℕ
  pub bytes : List ℕ

-- The loop over the pages, on fuel: as many rounds as there are bytes are enough.
unfoldable pub write_pages : ℕ → ℕ → List ℕ → List Page
unfolding read_groups
write_pages zero address rest = []
write_pages (suc fuel) address [] = []
write_pages (suc fuel) address (b ∷ bs) =
    let page = read_groups 64 (b ∷ bs) in
    let more = write_pages fuel (u16 (address + 256)) page.1 in
    record { address = address; bytes = page.0 } ∷ more

-- The data, filled up to a page.
unfoldable pub aligned : List ℕ → List ℕ
aligned bytes =
    let mod' = (if length bytes % 256 == 0 then 256 else length bytes % 256) in
    bytes ++ filling mod' (256 - mod')

pub record Written : Type 0 where
  pub pages : List Page
  pub crc : ℕ
  pub start_address : ℕ
  pub data_length : ℕ

-- _writeHex, with the data that getData answers: what is sent, and the fields that it leaves.
unfoldable pub write_hex : ℕ → List ℕ → Written
write_hex start bytes = record {
  pages = write_pages (length (aligned bytes)) start (aligned bytes);
  crc = crc_of bytes;
  start_address = start;
  data_length = u16 (length bytes);
}

-- The arguments of the command of a page.
unfoldable pub page_args : Page → List Arg
page_args p = scalar uint16 p.address ∷ scalar uint16 application_page_length ∷ uint8s p.bytes ∷ []
