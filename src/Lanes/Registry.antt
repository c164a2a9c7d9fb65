-- ===== src/Lanes/Registry.antt =====
-- internal/lanes/registry/registry.go: the resources that lanes created, and their erasure
-- (eraseRegistered and retiredEntries of internal/lanes/daemon/stack.go). A time is a number.
pub mod Refines
pub mod Erasing
use homebrew_tools.Prelude.{
  ℕ, suc, String, Bool, true, false, not, ◌&&◌, ◌||◌, Option, none, some, List, [], ◌∷◌, ◌++◌,
  str_eq, if◌then◌else◌, any, keep,
}

pub record Scripts : Type 0 where
  pub name : String
  pub create : String
  pub erase : String
  pub list : String
  pub owner : String

pub record Database : Type 0 where
  pub key : String
  pub template : String

pub record MySql : Type 0 where
  pub port : ℕ
  pub user : String
  pub password : String
  pub start : String
  pub listeners : List String
  pub databases : List Database

pub record Entry : Type 0 where
  pub kind : String
  pub adapter : String
  pub resource : String
  pub lane : String
  pub admin_dir : String
  pub worktree : String
  pub created_at : ℕ
  pub scripts : Option Scripts
  pub mysql : Option MySql

abbrev pub kind_tmpdir : String
kind_tmpdir = "tmpdir"

pub record Key : Type 0 where
  pub kind : String
  pub adapter : String
  pub resource : String

abbrev pub key_of : Entry → Key
key_of e = record { kind = e.kind; adapter = e.adapter; resource = e.resource }

unfoldable pub key_eq : Key → Key → Bool
key_eq a b = str_eq a.kind b.kind && str_eq a.adapter b.adapter && str_eq a.resource b.resource

unfoldable pub same_key : Entry → Entry → Bool
same_key c e = key_eq (key_of c) (key_of e)

-- The loop body of `Add`.
unfoldable pub add_one : List Entry → Entry → List Entry
add_one cur e = if any (λ c. same_key c e) cur then cur else cur ++ (e ∷ [])

-- `Add`
unfoldable pub add : List Entry → List Entry → List Entry
add cur [] = cur
add cur (e ∷ es) = add (add_one cur e) es

-- The entry that `Refresh` leaves in the place of one with the same key.
unfoldable pub renewed : Entry → Entry → Entry
renewed e c =
    if str_eq c.lane e.lane && str_eq c.admin_dir e.admin_dir
    then record e { created_at = c.created_at }
    else c

-- `Refresh`
unfoldable pub refresh : Entry → List Entry → List Entry
refresh e [] = e ∷ []
refresh e (c ∷ cs) = let rest = refresh e cs in if same_key c e then renewed e c ∷ cs else c ∷ rest

-- `Remove`
unfoldable pub remove : Entry → List Entry → List Entry
remove e cur = keep (λ c. not (same_key c e)) cur

-- What one of the three writes, where the registry was read.
pub data Change : Type 0 where
  adding : List Entry → Change
  refreshing : Entry → Change
  removing : Entry → Change

unfoldable pub apply : Change → List Entry → List Entry
apply (adding es) cur = add cur es
apply (refreshing e) cur = refresh e cur
apply (removing e) cur = remove e cur

-- `update`: a registry that cannot be read, `none`, is not written.
unfoldable pub update : Change → Option (List Entry) → Option (List Entry)
update c none = none
update c (some cur) = some (apply c cur)

-- What erasing a resource and removing its entry come to.
pub data Erased : Type 0 where
  kept_failing erased_unremoved erased : Erased

abbrev pub failed_one : List Entry × ℕ → List Entry × ℕ
failed_one r = (r.0, suc r.1)

-- The loop of `eraseRegistered`, over the entries as they were read: the registry after it, and how many
-- of the worktree's entries failed.
unfoldable pub erase_registered :
    (Entry → Erased) → String → List Entry → List Entry → List Entry × ℕ
erase_registered outcome admin_dir [] cur = (cur, 0)
erase_registered outcome admin_dir (en ∷ ens) cur =
    if not (str_eq en.admin_dir admin_dir)
    then erase_registered outcome admin_dir ens cur
    else elim (outcome en) [
      | erased ↦ erase_registered outcome admin_dir ens (remove en cur)
      | kept_failing ↦ failed_one (erase_registered outcome admin_dir ens cur)
      | erased_unremoved ↦ failed_one (erase_registered outcome admin_dir ens cur)
    ]

-- The test of `retiredEntries`, where lane is the worktree's current lane.
unfoldable pub is_retired : String → String → Entry → Bool
is_retired admin_dir lane en =
    str_eq en.admin_dir admin_dir
    && not (str_eq en.kind kind_tmpdir)
    && not (str_eq en.lane "")
    && not (str_eq en.lane lane)

-- `retiredEntries`, where the worktree may have no lane.
unfoldable pub retired_entries : String → Option String → List Entry → List Entry
retired_entries admin_dir none entries = []
retired_entries admin_dir (some lane) entries = keep (is_retired admin_dir lane) entries
