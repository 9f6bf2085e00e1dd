-- ===== src/Tools/Generate/Tests.antt =====
-- The lists of rows and the commands for devices of utils/gencctcmd.c at concrete inputs.
use libedio.Base.{some, true}
use libedio.Tools.Boards.{Memory, brdlst_append, brdlst_init}
use libedio.Tools.Boards.Laws.{Appended, brdlst_init-IsBoardList, brdlst_append-Appended}
use libedio.Tools.Samples.{device_row}

abbrev plenty : Memory
plenty = record { reallocated = true; duplicated = true }

brdlst_append-Appended_example :
    Appended plenty brdlst_init device_row (brdlst_append plenty brdlst_init (some device_row))
brdlst_append-Appended_example =
    brdlst_append-Appended plenty brdlst_init device_row brdlst_init-IsBoardList
