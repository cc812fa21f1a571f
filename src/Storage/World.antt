-- ===== src/Storage/World.antt =====
-- What core/internal/storage/storage.go uses of the operating system: the files of the data
-- directory by their names, the answers to the calls that may fail, and the clock.
use distributed_real_time_ev.Base.{
  ℕ, zero, suc, ◌+◌, Time, Bool, true, false, String, string_comparable, Option, none, some, List,
  [], ◌∷◌,
}
use distributed_real_time_ev.Base.Map
use distributed_real_time_ev.Base.Map.{Map}
use distributed_real_time_ev.Base.Text.{◌⧺◌}

pub record File : Type 0 where
  pub content : String
  pub mod_time : Time

-- A call is done, or refused with no effect; a write may also be cut off after some characters.
pub data Answer : Type 0 where
  done refused : Answer
  torn : ℕ → Answer

-- `clock` gives the readings of the clock in their order, and `ticks` counts those made.
pub record World : Type 0 where
  pub files : Map String File
  -- the answers to come; after these every call is `done`
  pub answers : List Answer
  pub clock : ℕ → Time
  pub ticks : ℕ

-- time.Now()
unfoldable pub now : World → Time × World
now w = (w.clock w.ticks, record w { ticks = w.ticks + 1 })

unfoldable pub answer : World → Answer × World
answer w = elim w.answers [ [] ↦ (done, w) | a ∷ rest ↦ (a, record w { answers = rest }) ]

-- A call that can only be done or fail: os.MkdirAll, f.Sync.
unfoldable pub attempt : World → Bool × World
attempt w =
    let (a, w') = answer w in
    elim a [ done ↦ (true, w') | refused ↦ (false, w') | torn n ↦ (false, w') ]

-- The first `n` characters.
unfoldable pub first : ℕ → String → String
first zero s = String.[]
first (suc n) String.[] = String.[]
first (suc n) (String.◌∷◌ c s) = String.◌∷◌ c (first n s)

abbrev pub content_of : Option File → String
content_of none = String.[]
content_of (some f) = f.content

-- The file after `text` has been written at its end.
unfoldable pub extended : World → String → String → World
unfolding now
extended w name text =
    let (t, w') = now w in
    record w' {
      files =
          Map.insert name
            (record { content = content_of (Map.lookup name w.files) ⧺ text; mod_time = t })
            w'.files;
    }

-- os.OpenFile with O_APPEND and O_CREATE, and f.WriteString: whether both are done.
unfoldable pub append_line : World → String → String → Bool × World
append_line w name line =
    let (a, w') = answer w in
    elim a [
      | done ↦ (true, extended w' name line)
      | refused ↦ (false, w')
      | torn n ↦ (false, extended w' name (first n line))
    ]

-- os.Remove, whose error the source drops.
unfoldable pub remove : World → String → World
remove w name =
    let (a, w') = answer w in
    elim a [ done ↦ record w' { files = Map.delete name w'.files } | refused ↦ w' | torn n ↦ w' ]
