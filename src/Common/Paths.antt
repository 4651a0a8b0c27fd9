-- ===== src/Common/Paths.antt =====
-- What the source uses of Go's package path/filepath, with `/` as the separator.
use mathlib.Core.Bool.{Bool, false}
use mathlib.Core.List.{List, [], ◌∷◌, ◌++◌}
use xboard_node_win.Common.Tests.{◌==◌, if◌then◌else◌, is_empty}
use xboard_node_win.Common.Key.{beq_text}
use xboard_node_win.Common.Strings.{Text, bytes}
use xboard_node_win.Common.Ascii.{split, join_texts}

abbrev pub is_rooted : Text → Bool
is_rooted [] = false
is_rooted (c ∷ s) = c == 47

-- `..` after the components in `stack`, the last one first.
abbrev pub go_up : Bool → List Text → List Text
go_up rooted [] = if rooted then [] else bytes ".." ∷ []
go_up rooted (p ∷ stack) = if beq_text p (bytes "..") then bytes ".." ∷ p ∷ stack else stack

abbrev pub push_part : Bool → List Text → Text → List Text
push_part rooted stack p =
    if is_empty p
    then stack
    else (if beq_text p (bytes ".")
        then stack
        else (if beq_text p (bytes "..") then go_up rooted stack else p ∷ stack))

unfoldable pub push_parts : Bool → List Text → List Text → List Text
push_parts rooted stack [] = stack
push_parts rooted stack (p ∷ ps) = push_parts rooted (push_part rooted stack p) ps

abbrev pub reverse_onto : List Text → List Text → List Text
reverse_onto acc [] = acc
reverse_onto acc (p ∷ ps) = reverse_onto (p ∷ acc) ps

abbrev pub dot_if_empty : Text → Text
dot_if_empty [] = bytes "."
dot_if_empty (c ∷ s) = c ∷ s

-- The path with these components, the last one first.
unfoldable pub path_of : Bool → List Text → Text
path_of rooted stack =
    let s = join_texts 47 (reverse_onto [] stack) in if rooted then 47 ∷ s else dot_if_empty s

-- `filepath.Clean`
unfoldable pub clean : Text → Text
clean p = path_of (is_rooted p) (push_parts (is_rooted p) [] (split 47 p))

-- `filepath.Join` of two elements.
unfoldable pub join : Text → Text → Text
join a b =
    if is_empty a
    then (if is_empty b then [] else clean b)
    else (if is_empty b then clean a else clean (a ++ 47 ∷ b))

-- The part up to the last `/`, with it.
abbrev pub upto_slash : Text → Text
upto_slash [] = []
upto_slash (c ∷ s) =
    let rest = upto_slash s in if is_empty rest then (if c == 47 then c ∷ [] else []) else c ∷ rest

-- `filepath.Dir`
unfoldable pub dir : Text → Text
dir p = clean (upto_slash p)
