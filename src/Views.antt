-- ===== src/Views.antt =====
-- src/viewlibs: what the views keep beside their drawing. arc_seekbar.cc keeps a progress between two
-- bounds, which a finger drags along an arc; time_textview.cc shows a clock whose colon blinks.
-- Measuring, drawing and colours are the framework's, and so is the angle of a touch.
pub mod SeekBar
pub mod Clock
mod Examples
