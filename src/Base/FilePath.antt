-- ===== src/Base/FilePath.antt =====
-- `filepath.Join` and `filepath.Base` of Go's standard library, on paths with "/". `join` drops empty
-- elements, joins the rest by "/" and cleans the result as `filepath.Clean` does: no empty or "."
-- element, and ".." takes the element before it, or stays where a relative path has none.
use mathlib.Core.List.{reverse}
use dra_driver_ovsdpdk_upstr.Base.Tests.{if◌then◌else◌}
use dra_driver_ovsdpdk_upstr.Base.Texts.{
  ◌==◌, concat, join_with, split, Lacks, split-append_both, split-Lacks,
}
use Prim.Native.String.{String}
use Prim.Native.Char.{Char}
use text.Mathlib.TextLemmas.{append_assoc}
use mathlib.Core.Path.{◌≡◌, refl}
use mathlib.Core.Bool.{Bool, true, false, ◌||◌}
use mathlib.Core.List.{List, [], ◌∷◌}

-- The elements kept so far, the last one first.
go_up : Bool → List String → List String
go_up rooted [] = if rooted then [] else ".." ∷ []
go_up rooted (top ∷ kept) = if top == ".." then ".." ∷ top ∷ kept else kept

clean_step : Bool → List String → String → List String
unfolding go_up
clean_step rooted kept element =
    if element == "" || element == "."
    then kept
    else if element == ".."
    then go_up rooted kept
    else element ∷ kept

clean_elements : Bool → List String → List String → List String
unfolding clean_step
clean_elements rooted kept [] = reverse kept
clean_elements rooted kept (element ∷ rest) =
    clean_elements rooted (clean_step rooted kept element) rest

show : Bool → List String → String
show true elements = concat ("/" ∷ join_with "/" elements ∷ [])
show false [] = "."
show false (e ∷ rest) = join_with "/" (e ∷ rest)

is_rooted : List String → Bool
is_rooted (first ∷ second ∷ rest) = first == ""
is_rooted _ = false

unfoldable pub clean : String → String
unfolding clean_elements is_rooted show split join_with
clean path =
    let parts = split b'/' path in
    let rooted = is_rooted parts in show rooted (clean_elements rooted [] parts)

unfoldable pub join : List String → String
unfolding clean
join [] = ""
join (e ∷ rest) =
    let later = join rest in if e == "" then later else clean (join_with "/" (e ∷ rest))

-- `filepath.Base(path)` for a path that does not end in "/"
last_part : String → List String → String
last_part part [] = part
last_part part (next ∷ rest) = last_part next rest

unfoldable pub base : String → String
unfolding last_part split
base path = last_part "" (split b'/' path)

-- `filepath.Dir(path)`: the path up to its last "/", cleaned.
up_to_last : List String → List String
up_to_last [] = []
up_to_last (part ∷ []) = "" ∷ []
up_to_last (part ∷ next ∷ rest) = part ∷ up_to_last (next ∷ rest)

unfoldable pub dir : String → String
unfolding up_to_last split join_with clean
dir path = clean (join_with "/" (up_to_last (split b'/' path)))

dir_example : dir "/var/lib/kubelet/device-plugins/kubelet.sock" ≡ "/var/lib/kubelet/device-plugins"
unfolding dir
dir_example = refl

dir_example_root : dir "/kubelet.sock" ≡ "/"
unfolding dir
dir_example_root = refl

dir_example_none : dir "kubelet.sock" ≡ "."
unfolding dir
dir_example_none = refl

join_example : join ("/var/run" ∷ "" ∷ "a/../b/." ∷ "c" ∷ []) ≡ "/var/run/b/c"
unfolding join
join_example = refl

-- An element that is one name and not "", "." or "..".
pub record IsName (s : String) : Type 0 where
  pub one : Lacks b'/' s
  pub ne_empty : (s == "") ≡ false
  pub ne_dot : (s == ".") ≡ false
  pub ne_up : (s == "..") ≡ false

-- The character of a text of one character.
abbrev slash : Char
slash = "/"

-- A name joined to a clean rooted directory is that directory's path, "/", and the name.
pub join-name :
    (s : String)
    → IsName s
    → join ("/var/run/ovsdpdk" ∷ s ∷ []) ≡ concat ("/var/run/ovsdpdk/" ∷ s ∷ [])
unfolding join
join-name s h =
    rw
      (
        split-append_both b'/' slash "/var/run/ovsdpdk" s refl,
        split-Lacks b'/' s h.one,
        h.ne_empty,
        h.ne_dot,
        h.ne_up,
      )
      (simp (← append_assoc))
