-- ===== src/Clist.antt =====
-- xframe/include/comserv/clist.h: CList<UINT>, a doubly linked ring closed by the sentinel m_pTag.
-- `items` are the values from m_pHead to m_pTail, `current` is the place of m_pCurrent among them and
-- is the number of items where m_pCurrent is the sentinel, `m_count` is the counter of the source.
pub mod Valid
pub mod Removal
pub mod Walk
use tsm_proxy.Prelude.{
  ℕ, zero, suc, ◌+◌, ◌-◌, ◌≡◌, Bool, true, false, ◌&&◌, ◌||◌, not, Option, none, some, List, [],
  ◌∷◌, ◌++◌, ◌==◌, leb, ltb, if◌then◌else◌, length, get_elem?, set, take, drop,
}

pub record Clist : Type 0 where
  pub items : List ℕ
  pub current : ℕ
  pub m_count : ℕ

unfoldable pub new : Clist
new = record { items = []; current = 0; m_count = 0 }

-- m_pCurrent == m_pTag
abbrev pub at_tag : Clist → Bool
at_tag l = l.current == length l.items

-- m_pHead != m_pTag, and as much for m_pTail
abbrev pub has_nodes : List ℕ → Bool
has_nodes [] = false
has_nodes (x ∷ xs) = true

unfoldable pub is_head : Clist → Bool
is_head l = if at_tag l then false else l.current == 0

unfoldable pub is_tail : Clist → Bool
is_tail l = if at_tag l then false else l.current + 1 == length l.items

unfoldable pub front : Clist → Clist × Bool
front l =
    if ltb 0 l.m_count && has_nodes l.items then (record l { current = 0 }, true) else (l, false)

unfoldable pub back : Clist → Clist × Bool
back l =
    if ltb 0 l.m_count && has_nodes l.items
    then (record l { current = length l.items - 1 }, true)
    else (l, false)

-- The value at the cursor, which the calls that return TRUE store through their reference.
abbrev pub value : Clist → Option ℕ
value l = get_elem? l.items l.current

unfoldable pub next : Clist → Clist × Bool
unfolding is_tail
next l = if at_tag l || is_tail l then (l, false) else (record l { current = l.current + 1 }, true)

unfoldable pub prev : Clist → Clist × Bool
unfolding is_head
prev l = if at_tag l || is_head l then (l, false) else (record l { current = l.current - 1 }, true)

-- A BOOL call with a TValue& argument: the value is stored if the move succeeds.
abbrev pub fetch : Clist × Bool → Clist × Option ℕ
fetch (l, true) = (l, value l)
fetch (l, false) = (l, none)

unfoldable pub reset : Clist → Clist
reset l = record l { current = 0 }

-- _addr for a position that is not negative.
unfoldable pub addr : ℕ → Clist → Clist × Bool
addr pos l =
    if l.m_count == 0
    then (l, false)
    else if leb l.m_count pos
    then (l, false)
    else (record l { current = pos }, true)

unfoldable pub get : ℕ → Clist → Clist × Option ℕ
unfolding addr
get pos l = fetch (addr pos l)

unfoldable pub set_at : ℕ → ℕ → Clist → Clist × Bool
unfolding addr
set_at pos v l =
    let (l', done) = addr pos l in
    if done then (record l' { items = set l'.items l'.current v }, true) else (l', false)

unfoldable pub push_front : ℕ → Clist → Clist
push_front v l = record { items = v ∷ l.items; current = 0; m_count = l.m_count + 1 }

unfoldable pub push_back : ℕ → Clist → Clist
push_back v l = record {
  items = l.items ++ v ∷ [];
  current = length l.items;
  m_count = l.m_count + 1;
}

unfoldable pub pop_front : Clist → Clist
pop_front l =
    if ltb 0 l.m_count
    then record { items = drop 1 l.items; current = 0; m_count = l.m_count - 1 }
    else l

-- The cursor goes to the new tail, and to the sentinel where no node is left.
unfoldable pub pop_back : Clist → Clist
pop_back l =
    if ltb 0 l.m_count
    then record {
      items = take (length l.items - 1) l.items;
      current = length l.items - 2;
      m_count = l.m_count - 1;
    }
    else l

-- The node at the cursor unlinked, the cursor on the node behind it.
abbrev unlink : Clist → Clist
unlink l = record {
  items = take l.current l.items ++ drop (suc l.current) l.items;
  current = l.current;
  m_count = l.m_count - 1;
}

unfoldable pub pop_current : Clist → Clist
unfolding pop_back pop_front
pop_current l =
    if l.m_count == 0 || at_tag l
    then l
    else if l.current + 1 == length l.items
    then pop_back l
    else if l.current == 0
    then pop_front l
    else unlink l

-- The place of the first match from the cursor on, counted from the place i of the first of xs.
pub seek : ℕ → List ℕ → ℕ → ℕ × Bool
seek v [] i = (i, false)
seek v (x ∷ xs) i = if x == v then (i, true) else seek v xs (i + 1)

unfoldable pub contain : ℕ → Clist → Clist × Bool
unfolding seek
contain v l =
    let (i, found) = seek v (drop l.current l.items) l.current in (record l { current = i }, found)

-- `while(contain(value)) { pop_current(); reset(); i++; }`, with the number of rounds.
unfoldable pub remove_loop : ℕ → ℕ → Clist → ℕ → Clist × ℕ
remove_loop zero v l i = (l, i)
remove_loop (suc fuel) v l i =
    let (l', found) = contain v l in
    let rest = remove_loop fuel v (reset (pop_current l')) (i + 1) in
    if found then rest else (l', i)

-- Every round takes a node away, so the loop makes at most one round more than there are nodes.
unfoldable pub remove : ℕ → Clist → Clist × ℕ
unfolding remove_loop
remove v l = remove_loop (length l.items + 1) v (reset l) 0

-- remove() and clear(): `do { } while(pop_front())`.
clear_loop : ℕ → Clist → Clist
unfolding pop_front
clear_loop zero l = l
clear_loop (suc fuel) l =
    let rest = clear_loop fuel (pop_front l) in
    if (pop_front l).m_count == 0 then pop_front l else rest

unfoldable pub clear : Clist → Clist
unfolding clear_loop
clear l = clear_loop (l.m_count + 1) l

unfoldable pub insert : ℕ → Clist → Clist
unfolding push_front push_back is_head is_tail
insert v l =
    if l.m_count == 0 || is_head l
    then push_front v l
    else if at_tag l
    then l
    else if is_tail l
    then push_back v l
    else record {
      items = take (suc l.current) l.items ++ v ∷ drop (suc l.current) l.items;
      current = l.current + 1;
      m_count = l.m_count + 1;
    }

-- The place at which the loop of insertSort stops. Mode 0 sorts upwards, any other downwards.
pub sort_place : ℕ → ℕ → List ℕ → ℕ → ℕ
sort_place v mode [] i = i
sort_place v mode (x ∷ xs) i =
    if (if mode == 0 then leb x v else leb v x) then sort_place v mode xs (i + 1) else i

unfoldable pub insert_sort : ℕ → ℕ → Clist → Clist
unfolding sort_place push_front push_back
insert_sort v mode l =
    let i = sort_place v mode l.items 0 in
    if i == 0 then push_front v l else if i == length l.items then push_back v l else record {
      items = take i l.items ++ v ∷ drop i l.items;
      current = i;
      m_count = l.m_count + 1;
    }

-- index(TValue&); none stands for -1.
index_from : ℕ → List ℕ → ℕ → Option ℕ
index_from v [] i = none
index_from v (x ∷ xs) i = if x == v then some i else index_from v xs (i + 1)

unfoldable pub index : ℕ → Clist → Option ℕ
unfolding index_from
index v l = index_from v l.items 0

unfoldable pub count : Clist → ℕ
count l = l.m_count

unfoldable pub is_empty : Clist → Bool
is_empty l = not (ltb 0 l.m_count)
