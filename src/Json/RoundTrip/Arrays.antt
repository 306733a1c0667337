-- ===== src/Json/RoundTrip/Arrays.antt =====
-- The elements of an array are read back.
use mathlib.Core.List.{append_assoc}
use qcore_rs.Prelude.{
  ℕ, zero, suc, ◌≤◌, ◌≡◌, refl, ◌∙◌, ◌++◌, ok, length, length-append, list_eq, nat_eq, Bytes, arith,
  inl, inr,
}
use qcore_rs.Json.{Json, Items, no_items, item, write, write_more_items}
use qcore_rs.Json.Parser.{Parser, more_items, array_loop, array, object, value_by, value}
use qcore_rs.Json.RoundTrip.Numbers.{Stops}
use qcore_rs.Json.RoundTrip.Values.{
  AreWritable, IsWritable, Reads, peeks_opening, skip_ws-Stops, skip_ws_opening, value-Reads,
  write-IsOpening,
}

abbrev count : Items → ℕ
count no_items = 0
count (item v rest) = suc (count rest)

-- With fuel for each element, the loops read what is written of them.
abbrev pub ReadsMore : Items → Type 0
ReadsMore items =
    (left fuel : ℕ) (v : Json) (rest : Bytes)
    → AreWritable left items
    → count items ≤ fuel
    → more_items (value left) (array_loop (value left) fuel) v (write_more_items items ++ rest)
      ≡ ok (item v items, rest)

abbrev pub ReadsItems : Items → Type 0
ReadsItems no_items = Unit
ReadsItems (item v items) =
    (left fuel : ℕ) (rest : Bytes)
    → AreWritable left (item v items)
    → count items ≤ fuel
    → array_loop (value left) (suc fuel) (write v ++ (write_more_items items ++ rest))
      ≡ ok (item v items, rest)

abbrev pub ReadsValue : Json → Type 0
ReadsValue v = (left : ℕ) → IsWritable left v → Reads (value left) v

more_items-Stops : (items : Items) (rest : Bytes) → Stops (write_more_items items ++ rest)
unfolding write
more_items-Stops no_items rest = inr (inl refl)
more_items-Stops (item v items) rest = inl refl

pub item-ReadsItems :
    (v : Json) (items : Items) → ReadsValue v → ReadsMore items → ReadsItems (item v items)
unfolding array_loop IsWritable
item-ReadsItems v items one more left fuel rest h n =
    let stops = more_items-Stops items rest in
    rw
      (
        one left h.0 (write_more_items items ++ rest) stops,
        skip_ws-Stops (write_more_items items ++ rest) stops,
      )
      (more left fuel v rest h.1 n)

pub more-ReadsMore :
    (v : Json) (items : Items) → ReadsItems (item v items) → ReadsMore (item v items)
unfolding more_items write
more-ReadsMore v items whole left zero w rest h n = absurd (omega arith)
more-ReadsMore v items whole left (suc fuel) w rest h n =
    rw (append_assoc (write v) (write_more_items items) rest, whole left fuel rest h (omega arith))
      refl

pub no_items-ReadsMore : ReadsMore no_items
unfolding more_items write
no_items-ReadsMore left fuel v rest h n = refl

count-le : (items : Items) (rest : Bytes) → count items ≤ length (write_more_items items ++ rest)
unfolding write
count-le no_items rest = omega arith
count-le (item v items) rest =
    let e = length-append (write v) (write_more_items items) in
    let f = length-append (write v ++ write_more_items items) rest in
    let g = length-append (write_more_items items) rest in
    omega (arith, e, f, g, count-le items rest)

dispatch_array :
    (o a : Parser Json) (items : Items) (rest : Bytes)
    → value_by o a (write (Json.array items) ++ rest) ≡ a (write (Json.array items) ++ rest)
unfolding value_by write
dispatch_array o a items rest = refl

array-Reads :
    (left : ℕ) (items : Items) (rest : Bytes)
    → AreWritable left items
    → ReadsItems items
    → array (value left) (write (Json.array items) ++ rest) ≡ ok (Json.array items, rest)
unfolding array write
array-Reads left no_items rest h r = refl
array-Reads left (item v items) rest h r =
    let text = write v ++ (write_more_items items ++ rest) in
    let opens = write-IsOpening v in
    let enough = count-le items rest in
    let longer = length-append (write v) (write_more_items items ++ rest) in
    rw
      (
        append_assoc (write v) (write_more_items items) rest,
        skip_ws_opening (write v) (write_more_items items ++ rest) opens,
        (peeks_opening (write v) (write_more_items items ++ rest) opens).0,
        r left (length text) rest h (omega (arith, enough, longer)),
      )
      refl

pub array-ReadsValue : (items : Items) → ReadsItems items → ReadsValue (Json.array items)
unfolding IsWritable
array-ReadsValue items r zero h = absurd h
array-ReadsValue items r (suc left) h =
    value-Reads left (Json.array items) (array_by left items r h)
  where
    array_by :
        (left : ℕ) (items : Items)
        → ReadsItems items
        → AreWritable left items
        → Reads (value_by (object (value left)) (array (value left))) (Json.array items)
    array_by left items r h rest s =
        dispatch_array (object (value left)) (array (value left)) items rest
        ∙ array-Reads left items rest h r
