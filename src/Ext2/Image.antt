-- ===== src/Ext2/Image.antt =====
-- Assignment4/ext2.h: the structures of a disk image, and programs that read and write it. The
-- super block, the group descriptor, the bitmaps, the inode table, the directory entries, the blocks
-- of pointers and the contents of files are kept apart. A directory entry is found by its byte
-- address in the image.
use csc369_operating_systems.Ext2.Resource.{index}
use csc369_operating_systems.Base.{
  ◌∙◌, ap, refl, ◌≡◌, ℕ, ◌+◌, ◌-◌, ◌%◌, ◌^◌, none, some, List, [], update,
}

pub record SuperBlock : Type 0 where
  pub s_inodes_count : ℕ
  pub s_blocks_count : ℕ
  pub s_free_blocks_count : ℕ
  pub s_free_inodes_count : ℕ

pub record GroupDesc : Type 0 where
  pub bg_free_blocks_count : ℕ
  pub bg_free_inodes_count : ℕ
  pub bg_used_dirs_count : ℕ

-- `i_block` is the array of block pointers, by index.
pub record Inode : Type 0 where
  pub i_mode : ℕ
  pub i_size : ℕ
  pub i_atime : ℕ
  pub i_ctime : ℕ
  pub i_mtime : ℕ
  pub i_dtime : ℕ
  pub i_links_count : ℕ
  pub i_blocks : ℕ
  pub i_block : ℕ → ℕ

pub record DirEntry : Type 0 where
  pub inode : ℕ
  pub rec_len : ℕ
  pub name_len : ℕ
  pub file_type : ℕ
  pub name : List ℕ

-- `inode_table` is indexed from 0, `entries` by byte address, `pointers` by block and index, and
-- `contents` by block.
pub record Disk : Type 0 where
  pub super_block : SuperBlock
  pub group_desc : GroupDesc
  pub inode_bitmap : List ℕ
  pub block_bitmap : List ℕ
  pub inode_table : ℕ → Inode
  pub entries : ℕ → DirEntry
  pub pointers : ℕ → ℕ → ℕ
  pub contents : ℕ → List ℕ

-- What a call comes to: it returns, the program exits with a code, or neither (an access out of
-- bounds, a null pointer, a loop that does not end). The image is mapped shared: `exit` keeps it.
pub data Result {ℓ} (A : Type ℓ) : Type ℓ where
  done : Disk → A → Result A
  exited : Disk → ℕ → Result A
  undefined : Result A

abbrev pub Program {ℓ} : Type ℓ → Type ℓ
Program A = Disk → Result A

infixl 5 ◌>>=◌ ◌>>◌
abbrev pub ◌>>=◌ {ℓ κ} : {A : Type ℓ} {B : Type κ} → Program A → (A → Program B) → Program B
(m >>= f) d = elim (m d) [
  | done d1 a ↦ f a d1
  | exited d1 code ↦ exited d1 code
  | undefined ↦ undefined
]

abbrev pub ◌>>◌ {ℓ} : {B : Type ℓ} → Program (Unit {0}) → Program B → Program B
m >> k = m >>= λ _. k

abbrev pub return {ℓ} : {A : Type ℓ} → A → Program A
return a d = done d a

abbrev pub exit {ℓ} : {A : Type ℓ} → ℕ → Program A
exit code d = exited d code

abbrev pub crash {ℓ} : {A : Type ℓ} → Program A
crash d = undefined

abbrev pub reading {ℓ} : {A : Type ℓ} → (Disk → A) → Program A
reading f d = done d (f d)

abbrev pub writing : (Disk → Disk) → Program (Unit {0})
writing f d = done (f d) tt

-- The error codes.
abbrev pub enoent : ℕ
enoent = 2

abbrev pub enomem : ℕ
enomem = 12

abbrev pub eexist : ℕ
eexist = 17

abbrev pub eisdir : ℕ
eisdir = 21

abbrev pub block_size : ℕ
block_size = 1024

-- The constants of directory entries and modes.
abbrev pub ft_reg_file : ℕ
ft_reg_file = 1

abbrev pub ft_dir : ℕ
ft_dir = 2

abbrev pub ft_symlink : ℕ
ft_symlink = 7

abbrev pub s_iflnk : ℕ
s_iflnk = 40960

abbrev pub s_ifreg : ℕ
s_ifreg = 32768

abbrev pub s_ifdir : ℕ
s_ifdir = 16384

-- `++` and `--` on the unsigned types of `w` bits.
abbrev pub increment : ℕ → ℕ → ℕ
increment w n = (n + 1) % 2 ^ w

abbrev pub decrement : ℕ → ℕ → ℕ
decrement w n = (n + 2 ^ w - 1) % 2 ^ w

abbrev pub empty_inode : Inode
empty_inode = record {
  i_mode = 0;
  i_size = 0;
  i_atime = 0;
  i_ctime = 0;
  i_mtime = 0;
  i_dtime = 0;
  i_links_count = 0;
  i_blocks = 0;
  i_block = λ _. 0;
}

abbrev pub empty_entry : DirEntry
empty_entry = record { inode = 0; rec_len = 0; name_len = 0; file_type = 0; name = [] }

-- The index of an inode's number.
abbrev pub inode_index : ℕ → Program ℕ
inode_index num = elim (index num) [ none ↦ crash | some i ↦ return i ]

abbrev pub put_inode : ℕ → Inode → Program (Unit {0})
put_inode i node = writing (λ d. record d { inode_table = update d.inode_table i node })

abbrev pub put_entry : ℕ → DirEntry → Program (Unit {0})
put_entry pos entry = writing (λ d. record d { entries = update d.entries pos entry })

module _ {ℓ κ} {A : Type ℓ} {B : Type κ} (f : A → Program B) where
  -- What follows a result.
  abbrev followed_by : Result A → Result B
  followed_by (done d a) = f a d
  followed_by (exited d code) = exited d code
  followed_by undefined = undefined

  result_inv :
      (r : Result A) {d2 : Disk} {b : B}
      → followed_by r ≡ done d2 b
      → (d1 : Disk) × (a : A) × (r ≡ done d1 a) × (f a d1 ≡ done d2 b)
  result_inv (done d a) e = (d, a, refl, e)
  result_inv (exited d code) e = cc
  result_inv undefined e = cc

  pub bind_done : {r : Result A} {d1 : Disk} {a : A} → r ≡ done d1 a → followed_by r ≡ f a d1
  bind_done e = ap followed_by e

  pub bind_exited :
      {r : Result A} {d1 : Disk} {code : ℕ} → r ≡ exited d1 code → followed_by r ≡ exited d1 code
  bind_exited e = ap followed_by e

  -- If a program returned, so did its first step.
  pub bind_inv :
      (m : Program A) {d d2 : Disk} {b : B}
      → (m >>= f) d ≡ done d2 b
      → (d1 : Disk) × (a : A) × (m d ≡ done d1 a) × (f a d1 ≡ done d2 b)
  bind_inv m {d = d} e = result_inv (m d) e

-- Programs with the same first step: the second returns what the first does.
pub bind_mono {ℓ κ} :
    {A : Type ℓ} {B : Type κ} (f g : A → Program B) (m : Program A) (d : Disk) {d2 : Disk} {b : B}
    → ((a : A) (d1 : Disk) → f a d1 ≡ done d2 b → g a d1 ≡ done d2 b)
    → (m >>= f) d ≡ done d2 b
    → (m >>= g) d ≡ done d2 b
bind_mono f g m d step e =
    let (d1, a, first, second) = bind_inv f m e in bind_done g first ∙ step a d1 second
