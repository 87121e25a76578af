-- ===== src/Tests/Results.antt =====
-- A row with a number, a name and NULL.
use morfeusz.Base.{
  ◌+◌, ltb, if◌then◌else◌, none, ℕ, le_value, take, ◌≡◌, refl, true, false, List, [], ◌∷◌, some,
  arith,
}
use morfeusz.Endian.{Host, load}
use morfeusz.ProxyDatabase.{Rows}
use morfeusz.ObjectMgr.{ObjectMgr, new_object_mgr, get_player_create_info}
use morfeusz.ProxyDatabase.Observers.{Start, read_start, create_info_loaded}
use morfeusz.ProxyDatabase.Observers.StartPlaces.{
  starts_of, last_start, create_info_loaded-last_start,
}
use morfeusz.MySqlResultSet.{
  ResultType, Field, ResultSet, Cell, Fetch, Reading, new_result_set, next, get_bool, get_string,
}
use morfeusz.MySqlResultSet.Stored.{Wide}
use morfeusz.MySqlResultSet.Fetched.{Getter, AllThrow, width, get_with, nexts, readings-next}

abbrev number_field : Field
number_field = record { field_type = ResultType.long; max_length = 4 }

abbrev name_field : Field
name_field = record { field_type = ResultType.var_string; max_length = 5 }

abbrev fields : List Field
fields = number_field ∷ name_field ∷ name_field ∷ []

abbrev cells : List Cell
cells = Cell.cell (7 ∷ 1 ∷ 0 ∷ 0 ∷ []) ∷ Cell.cell (0x4A ∷ 0x6F ∷ 0x65 ∷ []) ∷ Cell.null_cell ∷ []

abbrev results : ResultSet
results = record {
  row_position = 0;
  num_rows = 1;
  bind_result =
      record {
        buffer_type = ResultType.long;
        buffer = 0 ∷ 0 ∷ 0 ∷ 0 ∷ [];
        value_length = 0;
        is_null = false;
      }
      ∷ record {
        buffer_type = ResultType.var_string;
        buffer = 0 ∷ 0 ∷ 0 ∷ 0 ∷ 0 ∷ 0 ∷ [];
        value_length = 0;
        is_null = false;
      }
      ∷ record {
        buffer_type = ResultType.var_string;
        buffer = 0 ∷ 0 ∷ 0 ∷ 0 ∷ 0 ∷ 0 ∷ [];
        value_length = 0;
        is_null = false;
      }
      ∷ [];
}

made : new_result_set 40 fields 1 ≡ some results
unfolding new_result_set
made = refl

-- Another row was fetched before, with a longer name.
abbrev earlier : List Fetch
earlier = Fetch.row (Cell.null_cell ∷ Cell.cell (0x4D ∷ 0x61 ∷ 0x72 ∷ 0x69 ∷ 0x61 ∷ []) ∷ []) ∷ []

abbrev fetched : ResultSet
fetched = (next (Fetch.row cells) (nexts earlier results)).1

readings-next_example :
    AllThrow Host.little 1 results
    × (get_string 1 fetched ≡ Reading.value (7 ∷ 1 ∷ 0 ∷ 0 ∷ []))
    × ((g : Getter)
        → Wide (width g) (Cell.cell (7 ∷ 1 ∷ 0 ∷ 0 ∷ []))
        → get_with Host.little g 1 fetched
          ≡ Reading.value (load Host.little (take (width g) (7 ∷ 1 ∷ 0 ∷ 0 ∷ []))))
    × (Wide 1 (Cell.cell (7 ∷ 1 ∷ 0 ∷ 0 ∷ []))
        → get_bool Host.little 1 fetched ≡ Reading.value true)
unfolding load le_value
readings-next_example =
    readings-next Host.little 40 1 fields results earlier cells 0 number_field
      (Cell.cell (7 ∷ 1 ∷ 0 ∷ 0 ∷ [])) (ground arith) made refl refl (omega arith)

-- Two rows for one race and class.
abbrev start_rows : Rows
start_rows = record {
  rows_count = 2;
  get_number = λ row column. some (if ltb column 3 then 2 else row + column);
  get_string = λ row column. none;
}

abbrev start : ℕ → Start
start row = record {
  race = 2;
  pclass = 2;
  info = record {
    map_id = row + 3;
    zone_id = row + 4;
    position_x = row + 5;
    position_y = row + 6;
    position_z = row + 7;
  };
}

create_info_loaded-last_start_example :
    (m : ObjectMgr) × (create_info_loaded start_rows new_object_mgr ≡ some (2, m))
    × (get_player_create_info 2 2 m ≡ some ((start 1).info))
unfolding starts_of read_start last_start
create_info_loaded-last_start_example =
    create_info_loaded-last_start start_rows (start 0 ∷ start 1 ∷ []) new_object_mgr 2 2 refl
      (ground arith) refl (ground arith)
