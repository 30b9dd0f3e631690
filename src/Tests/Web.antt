-- ===== src/Tests/Web.antt =====
-- JSON values in memory, whose texts stand in a table, and a service that follows a script.
use sync_harbor.Base.{
  ℕ, String, Bool, true, false, Option, none, some, List, [], ◌∷◌, ◌==◌, string_eq, if◌then◌else◌,
}
use sync_harbor.Base.Dict.{Dict, lookup}
use sync_harbor.Clouds.Json.{JsonValues}
use sync_harbor.Clouds.Service.{Reply, Service}

mutual
  pub data Tree : Type 0 where
    nothing : Tree
    words : String → Tree
    truth : Bool → Tree
    digits : ℕ → Tree
    several : Trees → Tree
    named : Members → Tree

  pub data Trees : Type 0 where
    no_trees : Trees
    tree : Tree → Trees → Trees

  pub data Members : Type 0 where
    no_members : Members
    member : String → Tree → Members → Members

abbrev several_of : List Tree → Trees
several_of [] = no_trees
several_of (t ∷ ts) = tree t (several_of ts)

abbrev pub named_of : List (String × Tree) → Members
named_of [] = no_members
named_of ((key, t) ∷ ts) = member key t (named_of ts)

abbrev list_of : Trees → List Tree
list_of no_trees = []
list_of (tree t ts) = t ∷ list_of ts

abbrev member_of : String → Members → Option Tree
member_of key no_members = none
member_of key (member k t ts) = let rest = member_of key ts in if key == k then some t else rest

abbrev is_nothing : Tree → Bool
is_nothing nothing = true
is_nothing _ = false

abbrev has_none : Tree → Bool
has_none nothing = true
has_none (several no_trees) = true
has_none (named no_members) = true
has_none _ = false

abbrev find_member : Tree → String → Option (Option Tree)
find_member (named ms) key = some (member_of key ms)
find_member _ key = none

abbrev first_tree : Tree → Option (Option Tree)
first_tree (several no_trees) = some none
first_tree (several (tree t ts)) = some (some t)
first_tree _ = none

abbrev trees_of : Tree → List Tree
trees_of (several ts) = list_of ts
trees_of _ = []

abbrev words_of : Tree → Option String
words_of (words s) = some s
words_of _ = none

abbrev flag_of : Tree → Option Bool
flag_of (truth b) = some b
flag_of _ = none

abbrev number_of : Tree → Option ℕ
number_of (digits n) = some n
number_of _ = none

-- The values with a table of the texts that parse.
abbrev pub trees : Dict String Tree → JsonValues
trees table = record {
  Json = Tree;
  parse = λ s. lookup s table;
  dump = λ j. "{}";
  null = nothing;
  string = words;
  boolean = truth;
  array = λ ts. several (several_of ts);
  object = λ ms. named (named_of ms);
  is_null = is_nothing;
  is_empty = has_none;
  member = find_member;
  at_zero = first_tree;
  elements = trees_of;
  text = words_of;
  flag = flag_of;
  number = number_of;
}

-- The answer to the first attempt.
abbrev pub at_once : String → Reply
at_once text = record { retried = false; text = text }

abbrev next_reply : List String → Option Reply × List String
next_reply [] = (none, [])
next_reply (reply ∷ replies) = (some (at_once reply), replies)

-- A service that gives the replies of a script in their order.
abbrev pub scripted : Service
scripted = record { World = List String; answer = λ r. next_reply }
