-- ===== src/Log/Manager/Order.antt =====
-- What `LogDef::operator<` of src/log.cc orders.
use proj.Base.{◌≡◌, true, false, List, arith}
use proj.Base.Text.{Text, lex_refl, lex→eq, lex_trans}
use proj.Log.Level.{Level}
use proj.Log.Manager.{LogAppDef, LogDef, less}

-- The order of two definitions is transitive.
pub less_trans : (a b c : LogDef) → less a b ≡ true → less b c ≡ true → less a c ≡ true
unfolding less
less_trans a b c h k =
    ground (arith, lex_trans a.name b.name c.name, lex→eq a.name b.name, lex→eq b.name c.name)

-- Definitions of the same name and level are never below one another, whatever their appenders: the
-- number of appenders is compared with itself.
pub less_appends :
    (name : Text) (lv : Level) (xs ys : List LogAppDef)
    → less
        (record { name = name; level = lv; appends = xs })
        (record { name = name; level = lv; appends = ys })
      ≡ false
unfolding less
less_appends name lv xs ys = ground (arith, lex_refl name)
