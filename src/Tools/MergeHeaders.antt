-- ===== src/Tools/MergeHeaders.antt =====
-- What `merge_headers` leaves under a path.
use aralez.Prelude.{◌≡◌, refl, Option, none, some, [], ◌∷◌, ◌++◌, ==_iff, arith, nat_eq, list_eq}
use aralez.Text.{Str}
use aralez.DashMap.{get, insert}
use aralez.DashMap.Laws.{IsMap, get-insert}
use aralez.Structs.{PathHeaders, HeaderList}
use aralez.Tools.{or_default, merge_headers}

abbrev pub merged : Option HeaderList → Option HeaderList → Option HeaderList
merged o none = o
merged o (some hs) = some (or_default o ++ hs)

-- Where no path stands twice in the source, under each path stand the target's headers and then
-- the source's; a path of one map alone keeps what it has.
pub get-merge_headers :
    (path : Str) (target source : PathHeaders)
    → IsMap source
    → get path (merge_headers target source) ≡ merged (get path target) (get path source)
unfolding get merge_headers
get-merge_headers path target [] h = refl
get-merge_headers path target ((key, values) ∷ source) (fresh, h) =
    let added = or_default (get key target) ++ values in
    ground (
      arith,
      get-merge_headers path (insert key added target) source h,
      get-insert key path added target,
      ==_iff key path,
    )
