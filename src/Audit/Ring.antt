-- ===== src/Audit/Ring.antt =====
-- internal/audit/ring.go: the newest visits, repeats folded together. Times are nanoseconds.
pub mod Bounds
pub mod Paging
use fluxlite.Common.{
  ℕ, zero, suc, ◌+◌, ◌-◌, ◌*◌, Text, text_eq, trim_space, contains, length, take, Bool, true, false,
  not, ◌&&◌, ◌||◌, List, [], ◌∷◌, ◌++◌, Option, none, some, ltb, leb, ◌==◌, if◌then◌else◌,
}
use fluxlite.Common.Int.{ℤ, pos, pos_part, ltb_ℤ, wrap_int64}

pub record Record : Type 0 where
  pub id : ℕ
  pub at : ℕ
  pub node : Text
  pub name : Text
  pub machine : Text
  pub port : ℕ
  pub protocol : Text
  pub target : Text
  pub count : ℕ

abbrev pub capacity : ℕ
capacity = 1000

abbrev pub merge_window : ℕ
merge_window = 60 * 1_000_000_000

abbrev pub merge_scan : ℕ
merge_scan = 64

-- `nextID` is the id given last.
pub record Ring : Type 0 where
  pub records : List Record
  pub next_id : ℕ

abbrev pub new_ring : Ring
new_ring = record { records = []; next_id = 0 }

abbrev pub same_visit : Record → Record → Bool
same_visit r o = text_eq r.node o.node && text_eq r.target o.target

-- `absDuration` of a difference
abbrev pub distance : ℕ → ℕ → ℕ
distance a b = (a - b) + (b - a)

-- The visit that a record repeats.
abbrev pub repeats : Record → Record → Bool
repeats rec old = same_visit old rec && leb (distance rec.at old.at) merge_window

abbrev pub folded : Record → Record → Record
folded rec old = record old {
  count = old.count + 1;
  at = if ltb old.at rec.at then rec.at else old.at;
}

abbrev put_back : Record → Option (Record × List Record) → Option (Record × List Record)
put_back r none = none
put_back r (some (found, rest)) = some (found, r ∷ rest)

-- The scan of `Add`: the first repeat among the newest, and the others in their order.
unfoldable pub extract : ℕ → Record → List Record → Option (Record × List Record)
extract zero rec rs = none
extract (suc k) rec [] = none
extract (suc k) rec (r ∷ rs) =
    let rest = put_back r (extract k rec rs) in if repeats rec r then some (r, rs) else rest

abbrev insert_new : Record → Ring → Ring
insert_new rec ring =
    let id = suc ring.next_id in
    let count = if rec.count == 0 then 1 else rec.count in
    record {
      records = take capacity (record rec { id = id; count = count } ∷ ring.records);
      next_id = id;
    }

-- `Add`
unfoldable pub add : Ring → Record → Ring
add ring rec = elim (extract merge_scan rec ring.records) [
  | none ↦ insert_new rec ring
  | some (old, rest) ↦ record ring { records = folded rec old ∷ rest }
]

-- The loop of `Page` over the matching records: those of the page, and how many match.
page_from : (Record → Bool) → ℤ → ℕ → ℕ → ℕ → List Record → List Record × ℕ
page_from test start size taken total [] = ([], total)
page_from test start size taken total (r ∷ rs) =
    let hit = not (ltb_ℤ (pos total) start) && ltb taken size in
    let (out, n) =
      page_from test start size (if test r && hit then suc taken else taken)
        (if test r then suc total else total) rs in
    (if test r && hit then r ∷ out else out, n)

-- A zero value matches everything.
pub record Filter : Type 0 where
  pub machine : Text
  pub query : Text
  pub until : ℕ

-- `lower` is strings.ToLower.
module _ (lower : Text → Text) where
  -- The words of the query, which a record shows in any of its texts.
  abbrev found_in : Text → Record → Bool
  found_in q r =
      contains (lower r.name) q
      || contains (lower r.machine) q
      || contains (lower r.protocol) q
      || contains (lower r.target) q

  -- `match`
  unfoldable pub matches : Filter → Record → Bool
  matches f r =
      let q = lower (trim_space f.query) in
      if not (f.until == 0) && ltb f.until r.id
      then false
      else if not (text_eq f.machine []) && not (text_eq r.machine f.machine)
      then false
      else if text_eq q []
      then true
      else found_in q r

  -- `Page`: the product is an int, and wraps around.
  unfoldable pub page : Ring → ℤ → ℕ → Filter → List Record × ℕ
  unfolding page_from wrap_int64
  page ring number size f =
      let before = if ltb_ℤ number (pos 1) then 0 else pos_part number - 1 in
      page_from (matches f) (wrap_int64 (pos (before * size))) size 0 0 ring.records
