-- ===== src/LineParser.antt =====
-- src/server/controlchan/line_parser/: one line of the control channel, parsed into a command.
pub mod Eol
pub mod Arms
pub mod ParamArms
pub mod Parse
pub mod Print
pub mod EolLaws
pub mod RoundTrip
pub mod Tests
