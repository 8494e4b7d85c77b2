-- ===== src/Journal.antt =====
-- activity.rs: the bounded history of what the daemon did, its levels and its buffered writes.
pub mod Trace
pub mod Rising
pub mod Falling
pub mod Paging
pub mod Flushed
use zwrt_datad.Prelude.{
  ℕ, ◌+◌, ◌-◌, max, Bool, true, false, not, ◌&&◌, ◌||◌, Option, none, some, List, [], ◌∷◌, ◌++◌,
  ltb, leb, ◌==◌, length, take, drop, all, retain, last, if◌then◌else◌, zero, suc,
}
use zwrt_datad.Prelude.Text.{Bytes, codes, text_eq, one_of}
use zwrt_datad.Prelude.Words.{saturating_add_u64}
use zwrt_datad.Storage.{DiskFile, missing, invalid, holds}

pub data Level : Type 0 where
  off basic standard detailed : Level

-- The order that is derived for `Level`.
abbrev pub level_number : Level → ℕ
level_number off = 0
level_number basic = 1
level_number standard = 2
level_number detailed = 3

unfoldable pub parse_level : Bytes → Option Level
unfolding text_eq
parse_level name =
    if text_eq name (codes "off")
    then some off
    else if text_eq name (codes "basic")
    then some basic
    else if text_eq name (codes "standard")
    then some standard
    else if text_eq name (codes "detailed")
    then some detailed
    else none

-- What a call of `push` is about.
pub record Report : Type 0 where
  pub category : Bytes
  pub action : Bytes
  pub result : Bytes
  pub reason : Bytes
  pub task : Bytes

unfoldable pub rank : Report → Level
rank r =
    let recovery = text_eq r.category (codes "recovery") in
    if recovery && text_eq r.action (codes "probe")
    then detailed
    else if text_eq r.result (codes "failed")
    then basic
    else if recovery && one_of r.action (codes "redial" ∷ codes "reboot" ∷ codes "online" ∷ [])
    then basic
    else standard

-- `report` is the category, the action, the result, the reason and the task.
pub record Entry : Type 0 where
  pub id : ℕ
  pub timestamp : ℕ
  pub device_time : Bytes
  pub report : Report

pub record Stored : Type 0 where
  pub next_id : ℕ
  pub entries : List Entry
  pub level : Level

pub record Journal : Type 0 where
  pub path : DiskFile Stored
  pub stored : Stored
  pub storage_ok : Bool
  pub dirty : Bool

abbrev pub default_stored : Stored
default_stored = record { next_id = 0; entries = []; level = standard }

-- The filter of `load` on one entry; `len` counts bytes.
unfoldable pub entry_loadable : ℕ → Entry → Bool
entry_loadable next_id e =
    ltb e.id next_id
    && leb (length e.report.task) 80
    && leb (length e.report.action) 80
    && leb (length e.report.reason) 80

unfoldable pub loadable : Stored → Bool
unfolding entry_loadable
loadable s = leb (length s.entries) 300 && all (entry_loadable s.next_id) s.entries

-- `fits` says of what a file holds whether it takes 256 KiB at most.
unfoldable pub loaded : (Stored → Bool) → DiskFile Stored → Stored
unfolding loadable
loaded fits (holds s) = if fits s && loadable s then s else default_stored
loaded fits _ = default_stored

unfoldable pub load : (Stored → Bool) → DiskFile Stored → Journal
unfolding loaded
load fits path = record { path = path; stored = loaded fits path; storage_ok = true; dirty = false }

-- `save(&next)?` and then `stored = next`, in `set_level` and `clear`.
unfoldable pub replaced : Bool → Journal → Stored → Journal × Bool
replaced true j next =
    (record { path = holds next; stored = next; storage_ok = true; dirty = false }, true)
replaced false j next = (j, false)

unfoldable pub set_level : Bool → Journal → Level → Journal × Bool
unfolding replaced
set_level saves j level = replaced saves j (record j.stored { level = level })

unfoldable pub clear : Bool → Journal → Journal × Bool
unfolding replaced
clear saves j = replaced saves j (record j.stored { entries = [] })

unfoldable pub flush : Bool → Journal → Journal
flush saves j =
    if j.dirty
    then record j {
      path = if saves then holds j.stored else j.path;
      storage_ok = saves;
      dirty = not saves;
    }
    else j

-- A byte of UTF-8 that does not start a character.
abbrev continues : ℕ → Bool
continues b = leb 128 b && ltb b 192

-- `chars().take(n)`
unfoldable pub take_chars : ℕ → Bytes → Bytes
take_chars n [] = []
take_chars zero (b ∷ text) = let rest = take_chars zero text in if continues b then b ∷ rest else []
take_chars (suc n) (b ∷ text) =
    let same = take_chars (suc n) text in
    let next = take_chars n text in if continues b then b ∷ same else b ∷ next

unfoldable pub same_report : Report → Report → Bool
same_report a b =
    text_eq a.category b.category
    && text_eq a.action b.action
    && text_eq a.result b.result
    && text_eq a.reason b.reason
    && text_eq a.task b.task

-- A failure that repeats the last entry within five minutes.
unfoldable pub repeated : Stored → Report → ℕ → Bool
unfolding same_report
repeated s r now = text_eq r.result (codes "failed") && elim (last s.entries) [
  | some e ↦ same_report e.report r && ltb (now - e.timestamp) 300
  | none ↦ false
]

-- `remove(0)` once more than 300 are held.
unfoldable pub bounded : List Entry → List Entry
bounded entries = if ltb 300 (length entries) then drop 1 entries else entries

unfoldable pub appended : Stored → Report → ℕ → Bytes → Stored
unfolding take_chars bounded
appended s r now device_time =
    let id = max s.next_id 1 in
    record s {
      next_id = saturating_add_u64 id 1;
      entries = bounded (
          s.entries
          ++ (record {
            id = id;
            timestamp = now;
            device_time = device_time;
            report = record r { task = take_chars 80 r.task };
          }
              ∷ []));
    }

-- `now` is what `now()` gives, `device_time` the text of `local_clock`.
unfoldable pub push : Bool → ℕ → Bytes → Journal → Report → Journal
push saves now device_time j r =
    if ltb (level_number j.stored.level) (level_number (rank r))
    then j
    else if repeated j.stored r now
    then j
    else let j' = record j { stored = appended j.stored r now device_time; dirty = true } in
      if level_number j'.stored.level == 3 then flush saves j' else j'

-- `entries.iter().rev()`
abbrev pub newest_first : List Entry → List Entry
newest_first [] = []
newest_first (e ∷ entries) = newest_first entries ++ (e ∷ [])

unfoldable pub older : Option ℕ → Entry → Bool
older none e = true
older (some id) e = ltb e.id id

unfoldable pub wanted : Option Bytes → Bool → Entry → Bool
wanted category failed e =
    elim category [ none ↦ true | some c ↦ text_eq e.report.category c ]
    && (not failed || text_eq e.report.result (codes "failed"))

pub record Page : Type 0 where
  pub entries : List Entry
  pub next_before : Option ℕ
  pub storage_ok : Bool
  pub level : Level
  pub unsaved : Bool

unfoldable pub id_of : Option Entry → Option ℕ
id_of none = none
id_of (some e) = some e.id

unfoldable pub view : Journal → Option ℕ → Option Bytes → Bool → Page
unfolding id_of
view j before category failed =
    let found =
      retain (λ e. older before e && wanted category failed e) (newest_first j.stored.entries) in
    let page = take 100 found in
    record {
      entries = page;
      next_before = if ltb 100 (length found) then id_of (last page) else none;
      storage_ok = j.storage_ok;
      level = j.stored.level;
      unsaved = j.dirty;
    }
