-- ===== src/Utils/Tests.antt =====
-- File names of scripts, and a directory.
use proj.Base.{
  ◌≤◌, ◌≡◌, ◌≢◌, ◌⊎◌, refl, true, none, some, [], ◌∷◌, ◌++◌, if◌then◌else◌, ltb, length, drop,
}
use proj.Base.Text.{Text, codes}
use proj.Utils.{
  behind, find_from, marker, lua_file_redefine, trav_dir, trav_files, Listing, Dirents,
}
use proj.Utils.Laws.{lua_file_redefine_lem}

lua_file_redefine_lem_example :
    ((before : Text) × (rest : Text) × (codes "/opt/l-src/a.lua" ≡ before ++ (marker ++ rest))
      × ((b r : Text) → codes "/opt/l-src/a.lua" ≡ b ++ (marker ++ r) → length before ≤ length b)
      × (lua_file_redefine (codes "/opt/l-src/a.lua") ≡ some rest))
    ⊎ (((before rest : Text) → codes "/opt/l-src/a.lua" ≢ before ++ (marker ++ rest))
        × (lua_file_redefine (codes "/opt/l-src/a.lua") ≡ (
            if ltb (length (codes "/opt/l-src/a.lua")) 5
            then none
            else some (drop 5 (codes "/opt/l-src/a.lua")))))
lua_file_redefine_lem_example = lua_file_redefine_lem (codes "/opt/l-src/a.lua")

shortened : lua_file_redefine (codes "@./l-src/util/log.lua") ≡ some (codes "util/log.lua")
unfolding lua_file_redefine find_from behind
shortened = refl

cut : lua_file_redefine (codes "main.lua") ≡ some (codes "lua")
unfolding lua_file_redefine find_from behind
cut = refl

thrown : lua_file_redefine (codes "a.l") ≡ none
unfolding lua_file_redefine find_from behind
thrown = refl

abbrev tree : Listing
tree = Listing.opened (
    Dirents.file (codes ".git") (
      Dirents.dir (codes "a") (Listing.opened (Dirents.file (codes "x") Dirents.end))
        (Dirents.file (codes "y") Dirents.end)))

names_in_order : trav_dir true (codes "d") tree ≡ some (codes "d/a/x" ∷ codes "d/y" ∷ [])
unfolding trav_dir trav_files
names_in_order = refl
