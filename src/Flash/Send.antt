-- ===== src/Flash/Send.antt =====
-- What `execute_write_commands` of src/fls/from_url.rs sends while the writer takes it.
use fls.Base.{Bytes, ◌≡◌, refl, ap, ◌∙◌, sym, List, [], ◌∷◌, ◌++◌, none, append_assoc, append-nil}
use fls.Simg.Parser.{WriteCommand, seek, write, completed}
use fls.Writer.{WriterCommand, write_data, seek_to, fill_with}
use fls.Flash.{
  Channel, done, execute_write_command, execute_write_commands, send, write_regular_data,
}

-- The writer takes what comes.
abbrev pub taking : List WriterCommand → Channel
taking s = record { sent = s; closes_after = none }

abbrev pub translate : List WriteCommand → List WriterCommand
translate [] = []
translate (write input ∷ cs) = write_data input ∷ translate cs
translate (seek offset ∷ cs) = seek_to offset ∷ translate cs
translate (fls.Simg.Parser.fill_with p n ∷ cs) = fill_with p n ∷ translate cs
translate (completed _ ∷ cs) = translate cs

pub translate-append :
    (cs ds : List WriteCommand) → translate (cs ++ ds) ≡ translate cs ++ translate ds
translate-append [] ds = refl
translate-append (write input ∷ cs) ds = ap (λ t. write_data input ∷ t) (translate-append cs ds)
translate-append (seek offset ∷ cs) ds = ap (λ t. seek_to offset ∷ t) (translate-append cs ds)
translate-append (fls.Simg.Parser.fill_with p n ∷ cs) ds =
    ap (λ t. fill_with p n ∷ t) (translate-append cs ds)
translate-append (completed _ ∷ cs) ds = translate-append cs ds

pub execute_write_commands-translate :
    (s : List WriterCommand) (cs : List WriteCommand)
    → execute_write_commands (taking s) cs ≡ done (taking (s ++ translate cs))
unfolding execute_write_commands execute_write_command send
execute_write_commands-translate s [] = ap (λ t. done (taking t)) (sym (append-nil s))
execute_write_commands-translate s (write input ∷ cs) =
    execute_write_commands-translate (s ++ write_data input ∷ []) cs
    ∙ ap (λ t. done (taking t)) (append_assoc s (write_data input ∷ []) (translate cs))
execute_write_commands-translate s (seek offset ∷ cs) =
    execute_write_commands-translate (s ++ seek_to offset ∷ []) cs
    ∙ ap (λ t. done (taking t)) (append_assoc s (seek_to offset ∷ []) (translate cs))
execute_write_commands-translate s (fls.Simg.Parser.fill_with p n ∷ cs) =
    execute_write_commands-translate (s ++ fill_with p n ∷ []) cs
    ∙ ap (λ t. done (taking t)) (append_assoc s (fill_with p n ∷ []) (translate cs))
execute_write_commands-translate s (completed _ ∷ cs) = execute_write_commands-translate s cs

pub write_regular_data-taking :
    (s : List WriterCommand) (input : Bytes)
    → write_regular_data input (taking s) ≡ done (taking (s ++ write_data input ∷ []))
unfolding write_regular_data send
write_regular_data-taking s input = refl
